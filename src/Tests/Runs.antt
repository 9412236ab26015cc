-- ===== src/Tests/Runs.antt =====
-- Claims, heartbeats and the queue on a table of three runs.
use defnex_mlops.Base.{ℕ, ◌∷◌, [], ◌≡◌, Option, false, none, refl, some, true, ◌+◌}
use defnex_mlops.Training.{
  TrainingRun, Runs, RunStatus, claim_training_run, is_claimable, next_claimable_run, pending,
  running, stale, touch_heartbeat, Priority, goes_before, high, low, normal, completed, failed,
}
use defnex_mlops.Training.Claim.{claim_training_run_exclusive}
use defnex_mlops.Training.Queue.{next_claimable_run_first, Has, FirstOf}

abbrev run_row : ℕ → RunStatus → Priority → ℕ → Option ℕ → TrainingRun
run_row k s p retries beat_at = record {
  training_run_id = k;
  dataset_version_id = 1;
  model_id = 7;
  base_model = 5;
  training_config = 0;
  status = s;
  triggered_by = some 4;
  created_at = 100 + k;
  started_at = none;
  finished_at = none;
  heartbeat_at = beat_at;
  current_epoch = none;
  current_step = none;
  train_loss = none;
  eval_loss = none;
  artifact_uri = none;
  external_job_id = none;
  error_message = none;
  compute_resource_id = none;
  retry_of = none;
  retry_count = retries;
  priority = p;
}

abbrev waiting : TrainingRun
waiting = run_row 1 pending normal 0 none

abbrev timed_out : TrainingRun
timed_out = run_row 2 stale high 3 (some 120)

abbrev active : TrainingRun
active = run_row 3 running normal 0 (some 130)

abbrev runs : Runs
runs = waiting ∷ timed_out ∷ active ∷ []

claim_wins : (claim_training_run 5 200 timed_out runs).0 ≡ true
unfolding claim_training_run
claim_wins = refl

claim_training_run_exclusive_example :
    (claim_training_run 5 201 timed_out (claim_training_run 5 200 timed_out runs).1).0 ≡ false
claim_training_run_exclusive_example =
    claim_training_run_exclusive 5 200 201 timed_out timed_out runs refl claim_wins

-- The newer run is first: its priority is higher.
next_is_timed_out : next_claimable_run runs ≡ some timed_out
unfolding next_claimable_run goes_before
next_is_timed_out = refl

next_claimable_run_first_example :
    (is_claimable timed_out.status ≡ true) × Has timed_out runs × FirstOf timed_out runs
next_claimable_run_first_example = next_claimable_run_first runs timed_out next_is_timed_out

touched : (touch_heartbeat 3 480 runs).0 ≡ 1
unfolding touch_heartbeat
touched = refl

abbrev silent : TrainingRun
silent = run_row 9 running low 0 none

abbrev finished : TrainingRun
finished = run_row 5 completed normal 0 (some 140)

abbrev broken : TrainingRun
broken = run_row 6 failed high 2 (some 140)
