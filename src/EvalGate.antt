-- ===== src/EvalGate.antt =====
-- The eval gate of a promotion: `_gate_reasons` of app/services/promotion_service.py.
use defnex_mlops.Base.{
  ℕ, Bool, List, Option, false, ◌&&◌, ◌∷◌, [], is_none, some, leb, ltb, none, true, ◌||◌, length,
  ◌++◌,
}
use defnex_mlops.Registry.{ModelVersion, EvalLossTrend, QualitativeComparison, RegressionCheck}

-- The toggles of the eval gate.
pub record GateSettings : Type 0 where
  pub require_eval_set_reference : Bool
  pub require_qualitative_majority : Bool
  pub require_no_general_regression : Bool
  pub require_eval_loss_not_worse : Bool

pub data GateReason : Type 0 where
  no_eval_set_reference no_majority_win general_regressions eval_loss_worse : GateReason

-- `wins <= losses` of a comparison that is there.
abbrev pub no_majority : Option QualitativeComparison → Bool
no_majority none = false
no_majority (some q) = leb q.wins q.losses

abbrev pub has_regressions : Option RegressionCheck → Bool
has_regressions none = false
has_regressions (some r) = ltb 0 (length r.regressions_found)

abbrev pub loss_above : ℕ → Option ℕ → Bool
loss_above this none = false
loss_above this (some previous) = ltb previous this

abbrev pub loss_worse : Option EvalLossTrend → Bool
loss_worse none = false
loss_worse (some t) = loss_above t.this_version_eval_loss t.previous_version_eval_loss

abbrev pub reason_if : Bool → GateReason → List GateReason
reason_if true r = r ∷ []
reason_if false r = []

-- `_gate_reasons`
unfoldable pub gate_reasons : GateSettings → ModelVersion → List GateReason
gate_reasons g mv =
    reason_if
      (g.require_eval_set_reference && (is_none mv.eval_set_id || is_none mv.eval_set_version))
      no_eval_set_reference
    ++ (reason_if (g.require_qualitative_majority && no_majority mv.qualitative_comparison)
          no_majority_win
        ++ (reason_if
              (g.require_no_general_regression
                && has_regressions mv.general_domain_regression_check)
              general_regressions
            ++ reason_if (g.require_eval_loss_not_worse && loss_worse mv.eval_loss_trend)
                eval_loss_worse))
