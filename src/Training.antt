-- ===== src/Training.antt =====
-- Training runs: app/models/training.py, and the claims, the heartbeat and the queue of
-- app/services/training_service.py. Clock readings are seconds; a loss is a scaled number;
-- identifiers and free texts are numbers. A service call works on `run`, the row as the caller's
-- session has loaded it, and on the table as the database has it.
pub mod Rows
pub mod Claim
pub mod Queue
pub mod Liveness
pub mod Outcome
use defnex_mlops.Base.{
  ℕ, Bool, List, Option, if◌then◌else◌, keep, some, ◌∷◌, [], count, ltb, none, or_else, true, ◌&&◌,
  ◌==◌, false, is_none, map, ◌+◌, ◌||◌,
}

pub data RunStatus : Type 0 where
  pending running completed failed stale : RunStatus

pub data Priority : Type 0 where
  low normal high unlisted_priority : Priority

-- What stands in `error_message`: the text of an exception, or that of an exhausted run.
pub data ErrorMessage : Type 0 where
  exception_text exceeded_max_stale_retries : ℕ → ErrorMessage

pub record TrainingRun : Type 0 where
  pub training_run_id : ℕ
  pub dataset_version_id : ℕ
  pub model_id : ℕ
  pub base_model : ℕ
  pub training_config : ℕ
  pub status : RunStatus
  pub triggered_by : Option ℕ
  pub created_at : ℕ
  pub started_at : Option ℕ
  pub finished_at : Option ℕ
  pub heartbeat_at : Option ℕ
  pub current_epoch : Option ℕ
  pub current_step : Option ℕ
  pub train_loss : Option ℕ
  pub eval_loss : Option ℕ
  pub artifact_uri : Option ℕ
  pub external_job_id : Option ℕ
  pub error_message : Option ErrorMessage
  pub compute_resource_id : Option ℕ
  pub retry_of : Option ℕ
  pub retry_count : ℕ
  pub priority : Priority

-- The rows of `training_runs`.
abbrev pub Runs : Type 0
Runs = List TrainingRun

-- `_VALID_TRANSITIONS`
unfoldable pub valid_transition : RunStatus → RunStatus → Bool
valid_transition pending running = true
valid_transition running completed = true
valid_transition running failed = true
valid_transition running stale = true
valid_transition stale running = true
valid_transition _ _ = false

-- `status.in_(["PENDING", "STALE"])`
abbrev pub is_claimable : RunStatus → Bool
is_claimable pending = true
is_claimable stale = true
is_claimable _ = false

abbrev pub is_running : RunStatus → Bool
is_running running = true
is_running _ = false

abbrev pub is_stale : RunStatus → Bool
is_stale stale = true
is_stale _ = false

abbrev pub is_failed : RunStatus → Bool
is_failed failed = true
is_failed _ = false

-- `db.get(TrainingRun, id)`
abbrev pub get_run : ℕ → Runs → Option TrainingRun
get_run k [] = none
get_run k (r ∷ t) = if k == r.training_run_id then some r else get_run k t

abbrev pub update_run : ℕ → (TrainingRun → TrainingRun) → Runs → Runs
update_run k f [] = []
update_run k f (r ∷ t) = if k == r.training_run_id then f r ∷ t else r ∷ update_run k f t

-- The row of `UPDATE ... WHERE training_run_id = k AND p(row)`, if there is one.
abbrev pub matches : ℕ → (TrainingRun → Bool) → Runs → Bool
matches k p t = elim (get_run k t) [ none ↦ false | some r ↦ p r ]

-- The changes that a claim makes to its row.
abbrev pub exhaust : ℕ → ℕ → TrainingRun → TrainingRun
exhaust limit now r = record r {
  status = failed;
  error_message = some (exceeded_max_stale_retries limit);
  finished_at = some now;
}

abbrev pub with_retry_count : ℕ → TrainingRun → TrainingRun
with_retry_count n r = record r { retry_count = n }

abbrev pub begin : ℕ → TrainingRun → TrainingRun
begin now r = record r { status = running; started_at = some now; heartbeat_at = some now }

-- The compare-and-set of a claim, on the row as the database has it.
unfoldable pub compare_and_set : ℕ → ℕ → Runs → Bool × Runs
compare_and_set k now t =
    if matches k (λ r. is_claimable r.status) t
    then (true, update_run k (begin now) t)
    else (false, t)

-- `claim_training_run`; `limit` is `max_stale_retries`.
unfoldable pub claim_training_run : ℕ → ℕ → TrainingRun → Runs → Bool × Runs
unfolding compare_and_set
claim_training_run limit now run t =
    if is_stale run.status
    then if ltb limit (run.retry_count + 1)
      then (false, update_run run.training_run_id (exhaust limit now) t)
      else compare_and_set run.training_run_id now
          (update_run run.training_run_id (with_retry_count (run.retry_count + 1)) t)
    else compare_and_set run.training_run_id now t

abbrev pub beat : ℕ → TrainingRun → TrainingRun
beat now r = record r { heartbeat_at = some now }

-- `touch_heartbeat`: the number of rows updated.
unfoldable pub touch_heartbeat : ℕ → ℕ → Runs → ℕ × Runs
touch_heartbeat k now t =
    if matches k (λ r. is_running r.status) t then (1, update_run k (beat now) t) else (0, t)

-- `coalesce(heartbeat_at, started_at) < now - threshold`, false on NULL.
unfoldable pub lapsed : ℕ → ℕ → TrainingRun → Bool
lapsed now threshold r = elim (or_else r.heartbeat_at r.started_at) [
  | none ↦ false
  | some t ↦ ltb (t + threshold) now
]

-- The condition that `stale_runs` and `mark_stale_runs` share.
unfoldable pub is_lapsed_running : ℕ → ℕ → TrainingRun → Bool
is_lapsed_running now threshold r =
    is_running r.status && (is_none r.heartbeat_at || lapsed now threshold r)

-- `stale_runs`
unfoldable pub stale_runs : ℕ → ℕ → Runs → Runs
stale_runs now threshold t = keep (is_lapsed_running now threshold) t

abbrev pub mark_stale : TrainingRun → TrainingRun
mark_stale r = record r { status = stale }

-- The bulk update of `mark_stale_runs`.
abbrev pub mark_each : (TrainingRun → Bool) → Runs → Runs
mark_each p [] = []
mark_each p (r ∷ t) = (if p r then mark_stale r else r) ∷ mark_each p t

-- `mark_stale_runs`: how many rows flipped, the ids that are alerted, and the table. The alerts
-- are sent for every row that is STALE by then and has lapsed.
unfoldable pub mark_stale_runs : ℕ → ℕ → Runs → ℕ × List ℕ × Runs
mark_stale_runs now threshold t =
    let marked = mark_each (is_lapsed_running now threshold) t in
    let flipped = count (is_lapsed_running now threshold) t in
    let alerted =
      map (λ (r : TrainingRun). r.training_run_id)
        (keep (λ r. is_stale r.status && lapsed now threshold r) marked) in
    (flipped, if ltb 0 flipped then alerted else [], marked)

-- `_PRIORITY_RANK`, with the `else_` of the claim query.
abbrev pub priority_rank : Priority → ℕ
priority_rank low = 0
priority_rank normal = 1
priority_rank high = 2
priority_rank unlisted_priority = 1

-- Whether `a` is ordered before `b` by `priority DESC, created_at ASC`.
unfoldable pub goes_before : TrainingRun → TrainingRun → Bool
goes_before a b =
    ltb (priority_rank b.priority) (priority_rank a.priority)
    || (priority_rank a.priority == priority_rank b.priority && ltb a.created_at b.created_at)

first_claimable : Option TrainingRun → Runs → Option TrainingRun
first_claimable best [] = best
first_claimable best (r ∷ t) =
    first_claimable
      (if is_claimable r.status
        then (elim best [ none ↦ some r | some b ↦ if goes_before r b then some r else some b ])
        else best)
      t

-- `next_claimable_run`: the first row of the ordered query.
unfoldable pub next_claimable_run : Runs → Option TrainingRun
unfolding first_claimable
next_claimable_run t = first_claimable none t
