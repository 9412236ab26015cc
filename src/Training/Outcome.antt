-- ===== src/Training/Outcome.antt =====
-- How a run ends, and how it is tried again: the transitions, the progress, the completion, the
-- failure and the retry of app/services/training_service.py, on the row of the run. Telemetry and
-- webhook alerts are left out.
use defnex_mlops.Base.{
  ℕ, List, Option, Result, if◌then◌else◌, none, some, ◌≡◌, err, ok, ◌++◌, ◌⊎◌, inl, or_else, ◌∷◌,
  [], arith, inr, ◌==◌, refl, true,
}
use defnex_mlops.Training.{
  TrainingRun, Runs, RunStatus, claim_training_run, get_run, valid_transition, compare_and_set,
  completed, failed, running, is_failed, is_running, exception_text, pending, normal,
}

pub data RunError : Type 0 where
  invalid_transition not_running not_failed : RunError

pub data NoticeType : Type 0 where
  training_completed training_failed : NoticeType

-- A notification: app/services/notification_service.py.
pub record Notice : Type 0 where
  pub user_id : ℕ
  pub notice_type : NoticeType
  pub resource_ref : ℕ

-- The ids of the users by their names.
abbrev pub Usernames : Type 0
Usernames = List (ℕ × ℕ)

abbrev pub user_named : ℕ → Usernames → Option ℕ
user_named name [] = none
user_named name ((n, k) ∷ users) = if name == n then some k else user_named name users

-- `notify_user_by_username`: nobody is notified of a run without a known user.
unfoldable pub notify_user : Usernames → Option ℕ → NoticeType → ℕ → Option Notice
notify_user users none type ref = none
notify_user users (some name) type ref = elim (user_named name users) [
  | none ↦ none
  | some k ↦ some (record { user_id = k; notice_type = type; resource_ref = ref })
]

-- `_transition`
unfoldable pub transition : RunStatus → TrainingRun → Result RunError TrainingRun
transition s r =
    if valid_transition r.status s then ok (record r { status = s }) else err invalid_transition

-- `start_training_run`
unfoldable pub start_training_run : TrainingRun → Result RunError TrainingRun
unfolding transition
start_training_run r = transition running r

-- `update_training_progress`, with the fields of the progress event that are not null.
unfoldable pub update_training_progress :
    Option ℕ → Option ℕ → Option ℕ → Option ℕ → TrainingRun → Result RunError TrainingRun
update_training_progress epoch step train eval r =
    if is_running r.status
    then ok (record r {
      current_epoch = or_else epoch r.current_epoch;
      current_step = or_else step r.current_step;
      train_loss = or_else train r.train_loss;
      eval_loss = or_else eval r.eval_loss;
    })
    else err not_running

-- `complete_training_run`
unfoldable pub complete_training_run :
    Usernames → ℕ → ℕ → TrainingRun → Result RunError (TrainingRun × Option Notice)
complete_training_run users now uri r = elim (transition completed r) [
  | err e ↦ err e
  | ok r' ↦ ok (
    record r' { artifact_uri = some uri; finished_at = some now },
    notify_user users r.triggered_by training_completed r.training_run_id,
  )
]

-- `fail_training_run`
unfoldable pub fail_training_run :
    Usernames → ℕ → ℕ → TrainingRun → Result RunError (TrainingRun × Option Notice)
fail_training_run users now text r = elim (transition failed r) [
  | err e ↦ err e
  | ok r' ↦ ok (
    record r' { error_message = some (exception_text text); finished_at = some now },
    notify_user users r.triggered_by training_failed r.training_run_id,
  )
]

-- The run that a retry creates; a column that the code does not set has its default.
abbrev pub retried : ℕ → ℕ → TrainingRun → TrainingRun
retried k now r = record {
  training_run_id = k;
  dataset_version_id = r.dataset_version_id;
  model_id = r.model_id;
  base_model = r.base_model;
  training_config = r.training_config;
  status = pending;
  triggered_by = r.triggered_by;
  created_at = now;
  started_at = none;
  finished_at = none;
  heartbeat_at = none;
  current_epoch = none;
  current_step = none;
  train_loss = none;
  eval_loss = none;
  artifact_uri = none;
  external_job_id = none;
  error_message = none;
  compute_resource_id = r.compute_resource_id;
  retry_of = some r.training_run_id;
  retry_count = 0;
  priority = normal;
}

-- `retry_training_run`
unfoldable pub retry_training_run : ℕ → ℕ → TrainingRun → Result RunError TrainingRun
retry_training_run k now r = if is_failed r.status then ok (retried k now r) else err not_failed

-- A COMPLETED or FAILED run is final: it cannot be started, completed, failed, or given progress.
pub terminal_run_is_final :
    (users : Usernames) (now x : ℕ) (a b c d : Option ℕ) (r : TrainingRun)
    → (r.status ≡ completed) ⊎ (r.status ≡ failed)
    → (start_training_run r ≡ err invalid_transition)
      × (complete_training_run users now x r ≡ err invalid_transition)
      × (fail_training_run users now x r ≡ err invalid_transition)
      × (update_training_progress a b c d r ≡ err not_running)
unfolding start_training_run complete_training_run fail_training_run update_training_progress
    transition valid_transition
terminal_run_is_final users now x a b c d r (inl e) = rw e (refl, refl, refl, refl)
terminal_run_is_final users now x a b c d r (inr e) = rw e (refl, refl, refl, refl)

-- A RUNNING run can be completed and can be failed; either way its row carries the outcome, and its
-- owner is notified if the name is that of a user.
pub running_run_ends :
    (users : Usernames) (now x k name : ℕ) (r : TrainingRun)
    → r.status ≡ running
    → r.triggered_by ≡ some name
    → user_named name users ≡ some k
    → (complete_training_run users now x r
        ≡ ok (
          record r { status = completed; artifact_uri = some x; finished_at = some now },
          some (record {
            user_id = k;
            notice_type = training_completed;
            resource_ref = r.training_run_id;
          }),
        ))
      × (fail_training_run users now x r
          ≡ ok (
            record r {
              status = failed;
              error_message = some (exception_text x);
              finished_at = some now;
            },
            some (record {
              user_id = k;
              notice_type = training_failed;
              resource_ref = r.training_run_id;
            }),
          ))
unfolding complete_training_run fail_training_run transition valid_transition notify_user
running_run_ends users now x k name r e h u = ground arith

get_run-append :
    (k : ℕ) (t : Runs) (r : TrainingRun)
    → get_run k t ≡ none
    → r.training_run_id ≡ k
    → get_run k (t ++ r ∷ []) ≡ some r
get_run-append k [] r h e = ground arith
get_run-append k (x ∷ t) r h e = ground (arith, get_run-append k t r)

-- A FAILED run can be retried, and the new run, under an id that is not in use, can be claimed at
-- once: it is PENDING with a fresh count of retries, and names the run that it retries.
pub retry-claim :
    (limit k now later : ℕ) (r : TrainingRun) (t : Runs)
    → r.status ≡ failed
    → get_run k t ≡ none
    → (n : TrainingRun) × (retry_training_run k now r ≡ ok n)
      × (n.retry_of ≡ some r.training_run_id)
      × (n.retry_count ≡ 0)
      × ((claim_training_run limit later n (t ++ n ∷ [])).0 ≡ true)
unfolding retry_training_run claim_training_run compare_and_set
retry-claim limit k now later r t e free =
    let stored = get_run-append k t (retried k now r) free refl in
    (retried k now r, rw e refl, refl, refl, ground (arith, stored))
