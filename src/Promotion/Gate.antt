-- ===== src/Promotion/Gate.antt =====
-- Decisions on an evaluated version: what the eval gate asks, and what a decision records.
use defnex_mlops.Base.{
  ℕ, ◌≡◌, [], true, arith, is_some, some, ◌<◌, length, ◌≤◌, Bool, ◌↔◌, Option, ◌&&◌, false,
  Option-cases, ok, refl, inl, none, inr, ◌++◌, ◌∷◌, ◌+◌, err, ◌≢◌, ◌⊎◌, length-append, Bool-cases,
  List,
}
use defnex_mlops.Registry.{
  ModelVersion, QualitativeComparison, RegressionCheck, EvalLossTrend, evaluated, find,
  get_evaluation,
}
use defnex_mlops.Promotion.{
  Verdict, create_decision, Request, promote_it, decided, status_of, PromotionError,
  record_decision, decision_row, not_allowed, eval_gate_blocked, decision_audit, reject_it,
  is_evaluated,
}
use defnex_mlops.EvalGate.{
  GateSettings, gate_reasons, has_regressions, loss_worse, no_majority, GateReason,
}
use defnex_mlops.World.{World, PromotionDecision}
use defnex_mlops.Registry.Update.{find-update_self}

-- What a version has to show before it may be promoted, under the toggles of the gate.
pub record Clears (g : GateSettings) (mv : ModelVersion) : Type 0 where
  pub eval_set_reference :
      g.require_eval_set_reference ≡ true
      → (is_some mv.eval_set_id ≡ true) × (is_some mv.eval_set_version ≡ true)
  pub majority :
      g.require_qualitative_majority ≡ true
      → (q : QualitativeComparison) → mv.qualitative_comparison ≡ some q
      → q.losses < q.wins
  pub no_regression :
      g.require_no_general_regression ≡ true
      → (r : RegressionCheck) → mv.general_domain_regression_check ≡ some r
      → length r.regressions_found ≡ 0
  pub loss_not_worse :
      g.require_eval_loss_not_worse ≡ true
      → (t : EvalLossTrend) (previous : ℕ) → mv.eval_loss_trend ≡ some t
      → t.previous_version_eval_loss ≡ some previous
      → t.this_version_eval_loss ≤ previous

gate_reasons-Clears : (g : GateSettings) (mv : ModelVersion) → gate_reasons g mv ≡ [] → Clears g mv
unfolding gate_reasons
gate_reasons-Clears g mv h = record {
  eval_set_reference = λ on. ground arith;
  majority = λ on q e. ground arith;
  no_regression = λ on r e. ground arith;
  loss_not_worse = λ on t previous e e'. ground arith;
}

no_majority-false :
    (on : Bool) (q : Option QualitativeComparison)
    → (on ≡ true → (x : QualitativeComparison) → q ≡ some x → x.losses < x.wins)
    → (on && no_majority q) ≡ false
no_majority-false false q h = refl
no_majority-false true none h = refl
no_majority-false true (some x) h = let lt = h refl x refl in ground arith

has_regressions-false :
    (on : Bool) (r : Option RegressionCheck)
    → (on ≡ true → (x : RegressionCheck) → r ≡ some x → length x.regressions_found ≡ 0)
    → (on && has_regressions r) ≡ false
has_regressions-false false r h = refl
has_regressions-false true none h = refl
has_regressions-false true (some x) h = let zero_length = h refl x refl in ground arith

loss_worse-false :
    (on : Bool) (t : Option EvalLossTrend)
    → (on ≡ true
        → (x : EvalLossTrend) (p : ℕ) → t ≡ some x
        → x.previous_version_eval_loss ≡ some p
        → x.this_version_eval_loss ≤ p)
    → (on && loss_worse t) ≡ false
loss_worse-false false t h = refl
loss_worse-false true none h = refl
loss_worse-false true (some x) h = elim (Option-cases x.previous_version_eval_loss) [
  | inl e ↦ ground arith
  | inr (p, e) ↦ let le = h refl x p refl e in ground arith
]

Clears-gate_reasons : (g : GateSettings) (mv : ModelVersion) → Clears g mv → gate_reasons g mv ≡ []
unfolding gate_reasons
Clears-gate_reasons g mv c = ground (
  arith,
  no_majority-false g.require_qualitative_majority mv.qualitative_comparison c.majority,
  has_regressions-false g.require_no_general_regression mv.general_domain_regression_check
      c.no_regression,
  loss_worse-false g.require_eval_loss_not_worse mv.eval_loss_trend c.loss_not_worse,
  c.eval_set_reference,
)

-- The eval gate finds no reason to block a version exactly when it clears every enabled criterion.
pub gate_reasons_iff :
    (g : GateSettings) (mv : ModelVersion) → (gate_reasons g mv ≡ []) ↔ Clears g mv
gate_reasons_iff g mv = (gate_reasons-Clears g mv, Clears-gate_reasons g mv)

-- Why `create_decision` refuses.
pub data Refusal (g : GateSettings) (mv : ModelVersion) (verdict : Verdict) (e : PromotionError)
    : Type 0 where
  not_evaluated : mv.status ≢ evaluated → e ≡ not_allowed → Refusal g mv verdict e
  gate_blocks :
      verdict ≡ promote_it
      → ¬ Clears g mv
      → e ≡ eval_gate_blocked (gate_reasons g mv)
      → Refusal g mv verdict e

promotes : (verdict : Verdict) → (verdict ≡ promote_it) ⊎ (verdict ≢ promote_it)
promotes promote_it = inl refl
promotes reject_it = inr (λ e. cc)

clear_or_not :
    (g : GateSettings) (mv : ModelVersion)
    → (gate_reasons g mv ≡ [])
      ⊎ ((r : GateReason) × (rs : List GateReason) × (gate_reasons g mv ≡ r ∷ rs))
clear_or_not g mv =
    elim (gate_reasons g mv)
      as (λ l. (l ≡ []) ⊎ ((r : GateReason) × (rs : List GateReason) × (l ≡ r ∷ rs))) [
        | [] ↦ inl refl
        | r ∷ rs ↦ inr (r, rs, refl)
      ]

module _ {S : Type 0} where
  -- What a decision that was recorded says and does.
  pub record Recorded (g : GateSettings) (mv : ModelVersion) (verdict : Verdict) (q : Request)
      (w : World S) (decision : PromotionDecision) (w' : World S) : Type 0 where
    pub was_evaluated : mv.status ≡ evaluated
    pub cleared : verdict ≡ promote_it → Clears g mv
    pub row : find mv.id w'.versions ≡ some (decided (status_of verdict) q.decision_id mv)
    pub frozen : decision.evidence_snapshot ≡ some (get_evaluation mv)
    pub about : decision.model_version_id ≡ mv.id
    pub appended : w'.decisions ≡ w.decisions ++ decision ∷ []
    pub audited : length w'.audit ≡ length w.audit + 1
    pub history_same : w'.deployments ≡ w.deployments

  record_decision-Recorded :
      (g : GateSettings) (mv : ModelVersion) (verdict : Verdict) (q : Request) (w : World S)
      → mv.status ≡ evaluated
      → (verdict ≡ promote_it → Clears g mv)
      → find mv.id w.versions ≡ some mv
      → Recorded g mv verdict q w (decision_row mv verdict q) (record_decision mv verdict q w).1
  unfolding record_decision
  record_decision-Recorded g mv verdict q w e c f = record {
    was_evaluated = e;
    cleared = c;
    row =
        find-update_self mv.id (decided (status_of verdict) q.decision_id) w.versions mv (λ x. refl)
          f;
    frozen = refl;
    about = refl;
    appended = refl;
    audited = length-append w.audit (decision_audit mv verdict q ∷ []);
    history_same = refl;
  }

  -- Past its guards, `create_decision` is the recording step.
  create_decision-passes :
      (g : GateSettings) (mv : ModelVersion) (verdict : Verdict) (q : Request) (w : World S)
      → mv.status ≡ evaluated
      → (verdict ≡ promote_it → gate_reasons g mv ≡ [])
      → create_decision g mv verdict q w ≡ record_decision mv verdict q w
  unfolding create_decision
  create_decision-passes g mv reject_it q w e c = ground arith
  create_decision-passes g mv promote_it q w e c = let clear = c refl in ground arith

  -- `create_decision` either refuses and changes nothing, or it records. It refuses a version that
  -- is not EVALUATED, and a promotion that does not clear the gate, with the gate's reasons. What
  -- it records was taken on an EVALUATED version, which, if it is promoted, clears the gate.
  pub create_decision_outcome :
      (g : GateSettings) (mv : ModelVersion) (verdict : Verdict) (q : Request) (w : World S)
      → find mv.id w.versions ≡ some mv
      → ((e : PromotionError) × (create_decision g mv verdict q w ≡ (err e, w))
          × Refusal g mv verdict e)
        ⊎ ((decision : PromotionDecision) × ((create_decision g mv verdict q w).0 ≡ ok decision)
            × Recorded g mv verdict q w decision (create_decision g mv verdict q w).1)
  unfolding create_decision record_decision
  create_decision_outcome g mv verdict q w f = elim (Bool-cases (is_evaluated mv.status)) [
    | inr no_eval ↦ inl (not_allowed, ground arith, not_evaluated (λ e. ground arith) refl)
    | inl yes_eval ↦
        let e : mv.status ≡ evaluated = ground arith in
        elim (promotes verdict) [
          | inr rejects ↦ recorded (λ p. absurd (rejects p)) e
          | inl promoting ↦ elim (clear_or_not g mv) [
            | inl clear ↦ recorded (λ _. clear) e
            | inr (r, rs, blocked) ↦ inl (
              eval_gate_blocked (gate_reasons g mv),
              ground arith,
              gate_blocks promoting
                  (λ c. let none_left = Clears-gate_reasons g mv c in ground arith) refl,
            )
          ]
        ]
  ]
    where
      recorded :
          (verdict ≡ promote_it → gate_reasons g mv ≡ [])
          → mv.status ≡ evaluated
          → ((e : PromotionError) × (create_decision g mv verdict q w ≡ (err e, w))
              × Refusal g mv verdict e)
            ⊎ ((decision : PromotionDecision) × ((create_decision g mv verdict q w).0 ≡ ok decision)
                × Recorded g mv verdict q w decision (create_decision g mv verdict q w).1)
      recorded c e = rw (create_decision-passes g mv verdict q w e c) (
          inr (
            decision_row mv verdict q,
            refl,
            record_decision-Recorded g mv verdict q w e (λ p. gate_reasons-Clears g mv (c p)) f,
          ))
