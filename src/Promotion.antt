-- ===== src/Promotion.antt =====
-- Human promotion decisions, the staging ladder and rollback (app/services/promotion_service.py).
-- Each operation works on the row `mv` of the registry; a decision's identifiers and free texts
-- are numbers. License warnings are left out.
pub mod Staging
pub mod Gate
pub mod Pointer
use defnex_mlops.Base.{
  ℕ, Action, Bool, List, Option, some, false, pure, true, ◌&&◌, ◌∷◌, [], is_none, leb, ltb, none,
  ok, err, length, raise, ◌||◌, ◌++◌, ◌>>=◌, ◌>>◌, modify, raise_if, not,
}
use defnex_mlops.Registry.{
  ModelVersion, Versions, Status, EvalLossTrend, EvaluationObject, QualitativeComparison,
  RegressionCheck, promoted, set_status, deployed, evaluated, rejected, retired, staging, validated,
  production, update, get_evaluation,
}
use defnex_mlops.Deployment.{Deps, Call, DeployError, deploy}
use defnex_mlops.World.{
  World, AuditAction, Decision, PromotionDecision, promote, promoted_decision, Deployment, reject,
  rejected_decision, deploy_action, rollback_action, staging_decision, validated_decision,
  production_decision, rollback_decision, status_changed, AuditLog,
}
use defnex_mlops.Serving.{staging_environment, production_environment}
use defnex_mlops.EvalGate.{GateReason, GateSettings, gate_reasons}

-- What an operation of this module raises: `ValueError` is `not_allowed`.
pub data PromotionError : Type 0 where
  not_allowed staging_gate_not_met : PromotionError
  eval_gate_blocked : List GateReason → PromotionError
  deploy_failed : DeployError → PromotionError

-- The decisions that `DecisionCreateRequest` admits.
pub data Verdict : Type 0 where
  promote_it reject_it : Verdict

pub record Request : Type 0 where
  pub decided_by : Option ℕ
  pub rationale : ℕ
  pub actor_id : Option ℕ
  pub decision_id : ℕ

abbrev is_evaluated : Status → Bool
is_evaluated evaluated = true
is_evaluated _ = false

abbrev is_staging : Status → Bool
is_staging staging = true
is_staging _ = false

-- `_LADDER_PROMOTION_SOURCE`
abbrev pub in_promotion_source : Status → Bool
in_promotion_source validated = true
in_promotion_source promoted = true
in_promotion_source _ = false

-- `_VALIDATED_PRODUCTION_STATUSES`
abbrev pub in_validated_production : Status → Bool
in_validated_production validated = true
in_validated_production promoted = true
in_validated_production deployed = true
in_validated_production production = true
in_validated_production _ = false

-- `_ROLLBACK_TARGET_STATUSES`
abbrev pub in_rollback_targets : Status → Bool
in_rollback_targets promoted = true
in_rollback_targets retired = true
in_rollback_targets staging = true
in_rollback_targets validated = true
in_rollback_targets production = true
in_rollback_targets _ = false

abbrev pub status_of : Verdict → Status
status_of promote_it = promoted
status_of reject_it = rejected

abbrev decision_of : Verdict → Decision
decision_of promote_it = promoted_decision
decision_of reject_it = rejected_decision

abbrev audit_action_of : Verdict → AuditAction
audit_action_of promote_it = promote
audit_action_of reject_it = reject

-- The row after its status and `promotion_decision_ref` were assigned.
abbrev pub decided : Status → ℕ → ModelVersion → ModelVersion
decided s ref r = record r { status = s; promotion_decision_ref = some ref }

abbrev pub referenced : ℕ → ModelVersion → ModelVersion
referenced ref r = record r { promotion_decision_ref = some ref }

-- The row of a promotion or a rejection: its evidence is a frozen copy of the evaluation.
decision_row : ModelVersion → Verdict → Request → PromotionDecision
decision_row mv verdict q = record {
  decision_id = q.decision_id;
  model_version_id = mv.id;
  decision = decision_of verdict;
  decided_by = q.decided_by;
  evidence_snapshot = some (get_evaluation mv);
  eval_set_id = mv.eval_set_id;
  eval_set_version = mv.eval_set_version;
  rationale = q.rationale;
  rollback_of_version = none;
}

decision_audit : ModelVersion → Verdict → Request → AuditLog
decision_audit mv verdict q = record {
  actor_id = q.actor_id;
  action = audit_action_of verdict;
  model_id = mv.model_id;
  version = mv.version;
  change = status_changed mv.status (status_of verdict) q.decision_id;
  reason = some q.rationale;
}

-- The version that held the pointer gets it back.
restore : Option ModelVersion → Versions → Versions
restore none t = t
restore (some p) t = set_status p.id deployed t

module _ {S : Type 0} where
  -- The gate of a decision: only a promotion has to clear it.
  check_gate : GateSettings → Verdict → ModelVersion → Action (World S) PromotionError Unit
  check_gate g reject_it mv = pure tt
  check_gate g promote_it mv = elim (gate_reasons g mv) [
    | [] ↦ pure tt
    | reason ∷ reasons ↦ raise (eval_gate_blocked (reason ∷ reasons))
  ]

  -- The part of `create_decision` after its guards.
  unfoldable pub record_decision :
      ModelVersion → Verdict → Request → Action (World S) PromotionError PromotionDecision
  unfolding decision_row decision_audit
  record_decision mv verdict q = do
    modify (λ w. record w {
      versions = update mv.id (decided (status_of verdict) q.decision_id) w.versions;
      decisions = w.decisions ++ decision_row mv verdict q ∷ [];
      audit = w.audit ++ decision_audit mv verdict q ∷ [];
    })
    pure (decision_row mv verdict q)

  -- `create_decision`
  unfoldable pub create_decision :
      GateSettings
      → ModelVersion
      → Verdict
      → Request
      → Action (World S) PromotionError PromotionDecision
  unfolding check_gate
  create_decision g mv verdict q = do
    raise_if (not (is_evaluated mv.status)) not_allowed
    check_gate g verdict mv
    record_decision mv verdict q

  -- `_record_ladder_step`
  unfoldable pub record_ladder_step :
      ModelVersion
      → Decision
      → Request
      → Option EvaluationObject
      → Action (World S) PromotionError PromotionDecision
  record_ladder_step mv step q evidence = do
    let decision : PromotionDecision = record {
      decision_id = q.decision_id;
      model_version_id = mv.id;
      decision = step;
      decided_by = q.decided_by;
      evidence_snapshot = evidence;
      eval_set_id = mv.eval_set_id;
      eval_set_version = mv.eval_set_version;
      rationale = q.rationale;
      rollback_of_version = none;
    }
    modify (λ w. record w {
      versions = update mv.id (referenced q.decision_id) w.versions;
      decisions = w.decisions ++ decision ∷ [];
    })
    pure decision

  -- An exception of the deploy passes through.
  abbrev deploying :
      {A : Type 0} → Action (World S) DeployError A → Action (World S) PromotionError A
  deploying m w = let (r, w') = m w in (elim r [ ok a ↦ ok a | err e ↦ err (deploy_failed e) ], w')

  -- `validate_staging`
  unfoldable pub validate_staging :
      ModelVersion → Request → Action (World S) PromotionError PromotionDecision
  unfolding record_ladder_step
  validate_staging mv q = do
    raise_if (not (is_staging mv.status)) not_allowed
    modify (λ w. record w { versions = set_status mv.id validated w.versions })
    record_ladder_step mv validated_decision q (some (get_evaluation mv))

module _ {S : Type 0} (d : Deps S) where
  -- `stage_deploy`: a deploy to staging, after which the pointer is given back.
  unfoldable pub stage_deploy : ModelVersion → Call → Action (World S) PromotionError Deployment
  unfolding restore
  stage_deploy mv c = do
    outcome ← deploying (
        deploy d mv (record c {
          environment = some staging_environment;
          action = deploy_action;
          reason = none;
        }))
    modify (λ w. record w { versions = restore outcome.1 (set_status mv.id staging w.versions) })
    pure outcome.0

  -- `deploy_to_staging`
  unfoldable pub deploy_to_staging :
      ModelVersion → Request → Call → Action (World S) PromotionError PromotionDecision
  deploy_to_staging mv q c = do
    raise_if (not (is_evaluated mv.status)) not_allowed
    stage_deploy mv c
    record_ladder_step mv staging_decision q none

  -- `promote_to_production`: the staging gate of `_validate_staging_gate` stands first.
  unfoldable pub promote_to_production :
      ModelVersion → Request → Call → Action (World S) PromotionError PromotionDecision
  promote_to_production mv q c = do
    raise_if (not (in_validated_production mv.status)) staging_gate_not_met
    raise_if (not (in_promotion_source mv.status)) not_allowed
    deploying (
        deploy d mv (record c {
          environment = some production_environment;
          action = deploy_action;
          reason = none;
        }))
    record_ladder_step mv production_decision q none

  -- `rollback` of the pointer to `target`, in the environment of the call.
  unfoldable pub rollback :
      ModelVersion → Request → Call → Action (World S) PromotionError PromotionDecision
  rollback target q c = do
    raise_if (not (in_rollback_targets target.status)) not_allowed
    outcome ←
        deploying
          (deploy d target (record c { action = rollback_action; reason = some q.rationale }))
    let decision : PromotionDecision = record {
      decision_id = q.decision_id;
      model_version_id = elim outcome.1 [ none ↦ target.id | some from_version ↦ from_version.id ];
      decision = rollback_decision;
      decided_by = q.decided_by;
      evidence_snapshot = none;
      eval_set_id = none;
      eval_set_version = none;
      rationale = q.rationale;
      rollback_of_version = some target.version;
    }
    modify (λ w. record w {
      versions = update target.id (referenced q.decision_id) w.versions;
      decisions = w.decisions ++ decision ∷ [];
    })
    pure decision
