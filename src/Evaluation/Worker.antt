-- ===== src/Evaluation/Worker.antt =====
-- One iteration of the evaluation worker: `process_next_evaluation` of
-- app/workers/evaluation_worker.py, with the notifications that it sends to the admins.
use defnex_mlops.Base.{
  ℕ, Bool, true, false, List, Option, [], ◌∷◌, ◌++◌, if◌then◌else◌, none, some, leb, map, Result,
  ok, err,
}
use defnex_mlops.Validation.{Patterns}
use defnex_mlops.Registry.{ModelVersion, Versions, find, update, evaluated}
use defnex_mlops.Registry.Lifecycle.{EvaluationUpdate, submit_evaluation, merge, becomes_evaluated}
use defnex_mlops.Serving.{ServingBackend}
use defnex_mlops.Evaluation.{
  EvaluationError, EvaluationTables, compute_evaluation_update, unload_raised,
}

pub data AdminNoticeType : Type 0 where
  approval_required model_quality_drift_detected : AdminNoticeType

-- A notification of an admin about a model version.
pub record AdminNotice : Type 0 where
  pub user_id : ℕ
  pub notice_type : AdminNoticeType
  pub model_id : ℕ
  pub version : ℕ

-- A row of `model_drift_checks`; its trigger is always the schedule.
pub record ModelDriftCheck : Type 0 where
  pub model_version_id : ℕ
  pub measured : EvaluationUpdate
  pub new_regression_detected : Bool
  pub created_at : ℕ

-- What the two jobs write: the model versions, the notifications and the drift checks; `admins` are
-- the ids of the users whose role is admin.
pub record EvaluationDb : Type 0 where
  pub tables : EvaluationTables
  pub admins : List ℕ
  pub notifications : List AdminNotice
  pub drift_checks : List ModelDriftCheck

-- `notify_admins`
unfoldable pub notify_admins : AdminNoticeType → ModelVersion → EvaluationDb → EvaluationDb
notify_admins type mv d = record d {
  notifications =
      d.notifications
      ++ map
          (λ admin. record {
            user_id = admin;
            notice_type = type;
            model_id = mv.model_id;
            version = mv.version;
          })
          d.admins;
}

abbrev pub with_versions : Versions → EvaluationDb → EvaluationDb
with_versions t d = record d {
  tables = record {
    versions = t;
    runs = d.tables.runs;
    eval_set_versions = d.tables.eval_set_versions;
  };
}

-- `except ValueError`
unfoldable pub is_value_error : EvaluationError → Bool
is_value_error unload_raised = false
is_value_error _ = true

-- `select(ModelVersion).where(evaluation_requested).order_by(id)`
unfoldable pub next_requested : Versions → Option ModelVersion
next_requested [] = none
next_requested (r ∷ t) =
    let rest = next_requested t in
    if r.evaluation_requested
    then elim rest [ none ↦ some r | some q ↦ if leb r.id q.id then some r else some q ]
    else rest

abbrev pub unrequest : ModelVersion → ModelVersion
unrequest r = record r { evaluation_requested = false }

-- `claim_pending_evaluation`: the compare-and-set on the row as the database has it.
unfoldable pub claim_pending_evaluation : ℕ → Versions → Bool × Versions
claim_pending_evaluation k t = elim (find k t) [
  | none ↦ (false, t)
  | some r ↦ if r.evaluation_requested then (true, update k unrequest t) else (false, t)
]

-- The attributes that `submit_evaluation` assigned to the object, written to the row.
abbrev pub flush_evaluation : EvaluationUpdate → ModelVersion → ModelVersion → ModelVersion
flush_evaluation u mv r = record (merge u r) {
  status = if becomes_evaluated u mv then evaluated else r.status;
}

-- `submit_evaluation`, with its write and its notification.
unfoldable pub apply_evaluation :
    EvaluationUpdate → ModelVersion → EvaluationDb → ModelVersion × EvaluationDb
apply_evaluation u mv d =
    let (asked, mv') = submit_evaluation u mv in
    let d' = with_versions (update mv.id (flush_evaluation u mv) d.tables.versions) d in
    (mv', if asked then notify_admins approval_required mv d' else d')

module _ {S : Type 0} (p : Patterns) (backend : ServingBackend S) (url : ℕ) where
  -- What follows the claim.
  unfoldable pub evaluate_claimed :
      ModelVersion
      → EvaluationDb
      → S
      → Result EvaluationError (Option ModelVersion) × EvaluationDb × S
  evaluate_claimed mv d s =
      let (r, s') = compute_evaluation_update p backend url d.tables mv s in
      elim r [
        | err e ↦ (if is_value_error e then ok (some mv) else err e, d, s')
        | ok u ↦ let (mv', d') = apply_evaluation u mv d in (ok (some mv'), d', s')
      ]

  -- `process_next_evaluation`; `rival` is what others commit between the query and the claim.
  unfoldable pub process_next_evaluation :
      (Versions → Versions)
      → EvaluationDb
      → S
      → Result EvaluationError (Option ModelVersion) × EvaluationDb × S
  process_next_evaluation rival d s = elim (next_requested d.tables.versions) [
    | none ↦ (ok none, d, s)
    | some mv ↦
        let (claimed, t) = claim_pending_evaluation mv.id (rival d.tables.versions) in
        if claimed
        then evaluate_claimed (unrequest mv) (with_versions t d) s
        else (ok none, with_versions t d, s)
  ]
