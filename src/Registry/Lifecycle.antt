-- ===== src/Registry/Lifecycle.antt =====
-- The life of a registry row outside of promotion (app/services/model_service.py): allocation of
-- version numbers, evaluation, archive.
pub mod Allocation
pub mod Evaluation
use defnex_mlops.Base.{
  ℕ, Bool, List, Option, Result, or_else, ◌∷◌, if◌then◌else◌, is_some, none, true, ◌&&◌, false, ok,
  ◌+◌, ◌==◌, err, ltb, ◌||◌, [], some, ◌++◌,
}
use defnex_mlops.Registry.{
  ModelVersion, Versions, Status, registered, EvalLossTrend, QualitativeComparison, with_status,
  RegressionCheck, archived, evaluated, promoted, get_model_version, rejected, retired,
}

-- `EvaluationUpdateRequest`: any part of the evaluation.
pub record EvaluationUpdate : Type 0 where
  pub eval_set_id : Option ℕ
  pub eval_set_version : Option ℕ
  pub eval_loss_trend : Option EvalLossTrend
  pub qualitative_comparison : Option QualitativeComparison
  pub general_domain_regression_check : Option RegressionCheck

-- The row after the fields of the request that are not null were assigned.
abbrev pub merge : EvaluationUpdate → ModelVersion → ModelVersion
merge u r = record r {
  eval_set_id = or_else u.eval_set_id r.eval_set_id;
  eval_set_version = or_else u.eval_set_version r.eval_set_version;
  eval_loss_trend = or_else u.eval_loss_trend r.eval_loss_trend;
  qualitative_comparison = or_else u.qualitative_comparison r.qualitative_comparison;
  general_domain_regression_check =
      or_else u.general_domain_regression_check r.general_domain_regression_check;
}

abbrev pub all_signals_present : ModelVersion → Bool
all_signals_present r =
    is_some r.eval_loss_trend
    && (is_some r.qualitative_comparison && is_some r.general_domain_regression_check)

unfoldable pub is_registered : Status → Bool
is_registered registered = true
is_registered _ = false

-- Whether a submission moves the row to EVALUATED, and the admins are notified.
unfoldable pub becomes_evaluated : EvaluationUpdate → ModelVersion → Bool
becomes_evaluated u r = all_signals_present (merge u r) && is_registered r.status

-- `submit_evaluation`, on the row; with it, whether the admins are asked for a decision.
unfoldable pub submit_evaluation : EvaluationUpdate → ModelVersion → Bool × ModelVersion
unfolding becomes_evaluated
submit_evaluation u r =
    if becomes_evaluated u r then (true, with_status evaluated (merge u r)) else (false, merge u r)

-- `trigger_evaluation`
unfoldable pub trigger_evaluation : Option ℕ → Option ℕ → ModelVersion → ModelVersion
trigger_evaluation set_id set_version r = record r {
  eval_set_id = or_else set_id r.eval_set_id;
  eval_set_version = or_else set_version r.eval_set_version;
  evaluation_requested = true;
}

pub data LifecycleError : Type 0 where
  cannot_archive cannot_unarchive cannot_restore_to : LifecycleError

-- `_ARCHIVE_MASK`
unfoldable pub in_archive_mask : Status → Bool
in_archive_mask promoted = true
in_archive_mask retired = true
in_archive_mask _ = false

-- `_ARCHIVED_RESTORE_TARGETS`
unfoldable pub in_restore_targets : Status → Bool
in_restore_targets promoted = true
in_restore_targets rejected = true
in_restore_targets retired = true
in_restore_targets _ = false

unfoldable pub is_archived : Status → Bool
is_archived archived = true
is_archived _ = false

-- `archive_model_version`
unfoldable pub archive_model_version : ModelVersion → Result LifecycleError ModelVersion
archive_model_version r =
    if in_archive_mask r.status then ok (with_status archived r) else err cannot_archive

-- `unarchive_model_version`
unfoldable pub unarchive_model_version : ModelVersion → Status → Result LifecycleError ModelVersion
unarchive_model_version r s =
    if is_archived r.status
    then if in_restore_targets s then ok (with_status s r) else err cannot_restore_to
    else err cannot_unarchive

-- The highest version of a model, and 0 if there is none: `latest or 0`.
abbrev pub latest : ℕ → Versions → ℕ
latest m [] = 0
latest m (r ∷ t) =
    let rest = latest m t in
    if r.model_id == m then (if ltb rest r.version then r.version else rest) else rest

-- The row that an attempt inserts; `k` is the key that the database draws.
abbrev pub new_row : ModelVersion → ℕ → ℕ → ModelVersion
new_row template k v = record template { id = k; version = v; status = registered }

-- What happens around one attempt: the key that the insert would get, what other transactions
-- commit between its query and its insert, and whether the database is locked then.
pub record Attempt : Type 0 where
  pub key : ℕ
  pub rival : Versions → Versions
  pub is_locked : Bool

-- `_allocate_version`: `attempts` are those that `_MAX_VERSION_RETRIES` allows. The insert breaks
-- the unique constraint on model and version if a rival has taken the number; `none` is the
-- `RuntimeError` when no attempt is left.
unfoldable pub allocate_version :
    ModelVersion → List Attempt → Versions → Option ModelVersion × Versions
allocate_version template [] t = (none, t)
allocate_version template (a ∷ attempts) t =
    let v = latest template.model_id t + 1 in
    let now = a.rival t in
    let retried = allocate_version template attempts now in
    if a.is_locked || is_some (get_model_version template.model_id v now)
    then retried
    else (some (new_row template a.key v), now ++ new_row template a.key v ∷ [])
