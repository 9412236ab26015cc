-- ===== src/World.antt =====
-- The tables that deploys and promotion decisions write (app/models/deployment.py,
-- app/models/promotion.py, app/models/audit_log.py), beside those of the registry and the state of the
-- serving backend.
use defnex_mlops.Base.{ℕ, List, Option}
use defnex_mlops.Registry.{Versions, EvaluationObject, Status}

-- A row of `deployments`: pointer history.
pub record Deployment : Type 0 where
  pub deployment_id : ℕ
  pub model_id : ℕ
  pub model_version : ℕ
  pub environment : ℕ
  pub deployed_at : ℕ

pub data AuditAction : Type 0 where
  promote reject deploy_action rollback_action : AuditAction

-- A row of `audit_logs` about a model version: its `before` and `after` values.
pub data AuditChange : Type 0 where
  pointer_moved : Option ℕ → ℕ → ℕ → AuditChange
  status_changed : Status → Status → ℕ → AuditChange

pub record AuditLog : Type 0 where
  pub actor_id : Option ℕ
  pub action : AuditAction
  pub model_id : ℕ
  pub version : ℕ
  pub change : AuditChange
  pub reason : Option ℕ

pub data Decision : Type 0 where
  promoted_decision rejected_decision staging_decision validated_decision production_decision
        rollback_decision :
      Decision

-- A row of `promotion_decisions`.
pub record PromotionDecision : Type 0 where
  pub decision_id : ℕ
  pub model_version_id : ℕ
  pub decision : Decision
  pub decided_by : Option ℕ
  pub evidence_snapshot : Option EvaluationObject
  pub eval_set_id : Option ℕ
  pub eval_set_version : Option ℕ
  pub rationale : ℕ
  pub rollback_of_version : Option ℕ

pub record World (S : Type 0) : Type 0 where
  pub versions : Versions
  pub deployments : List Deployment
  pub decisions : List PromotionDecision
  pub audit : List AuditLog
  pub serving : S
