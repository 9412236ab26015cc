-- ===== src/Tests/Worker.antt =====
-- One iteration of the worker on a table of one run. The host counts the calls that read its memory,
-- and has more of it free at each.
use defnex_mlops.Base.{
  ◌∷◌, ℕ, [], ◌≡◌, refl, Action, Bool, false, ok, err, ltb, some, ◌*◌, ◌+◌, ◌⊎◌, Option, none, suc,
  if◌then◌else◌, true,
}
use defnex_mlops.Orchestrator.{
  ServingControl, Site, VramReader, serving_cycle, Fault, exception, guarded, stop_serving,
  wait_for_vram, read_vram, restart_serving,
}
use defnex_mlops.Training.{
  TrainingRun, pending, normal, next_claimable_run, mark_stale_runs, is_lapsed_running,
  claim_training_run, compare_and_set, goes_before, lapsed, valid_transition,
}
use defnex_mlops.Worker.{
  process_next_job, Db, WorkerSettings, real, run_job, skip_poll, cycle, record_success,
  Coordinator,
}
use defnex_mlops.Worker.Job.{Ended}
use defnex_mlops.Orchestrator.Cycle.{Skipped, Ran, serving_cycle_safe}
use defnex_mlops.Worker.Safety.{process_next_job-Ended, process_next_job_safe, Idle, WorkedWith}
use defnex_mlops.GpuLock.{gpu_lock}
use defnex_mlops.Training.Outcome.{complete_training_run, transition, notify_user}
use defnex_mlops.Registry.Lifecycle.{allocate_version}
use defnex_mlops.Registry.Register.{ensure_model_row, is_completed, register_model_version}
use defnex_mlops.Orchestrator.Signal.{
  Phase, Response, stop_by_signal, poll_response, answers, ends_stop, vram_checked, is_error,
  stopping,
}

abbrev control : ServingControl ℕ
control = record {
  stop = λ w. (ok tt, w);
  start = λ w. (err (exception 3), w);
  health_check = λ w. (ok false, w);
}

abbrev vram : VramReader ℕ
vram = record { free_mb = λ w. (ok (30 * w), suc w) }

abbrev sleep : ℕ → Bool × ℕ
sleep w = (false, w)

abbrev queued : TrainingRun
queued = record {
  training_run_id = 1;
  dataset_version_id = 1;
  model_id = 7;
  base_model = 5;
  training_config = 0;
  status = pending;
  triggered_by = some 4;
  created_at = 100;
  started_at = none;
  finished_at = none;
  heartbeat_at = none;
  current_epoch = none;
  current_step = none;
  train_loss = none;
  eval_loss = none;
  artifact_uri = none;
  external_job_id = none;
  error_message = none;
  compute_resource_id = none;
  retry_of = none;
  retry_count = 0;
  priority = normal;
}

abbrev settings : WorkerSettings ℕ
settings = record {
  users = (4, 9) ∷ [];
  max_stale_retries = 3;
  stale_threshold = 60;
  now = 200;
  attempts = record { key = 11; rival = λ t. t; is_locked = false } ∷ [];
  finalize_version = λ r dir. ok (dir + 1, 77);
  runner = λ run w db. (ok 500, w, db);
}

abbrev site : Site ℕ Db
site = record {
  host = 0;
  data_of = record {
    runs = queued ∷ [];
    tables = record { models = []; versions = [] };
    notices = [];
  };
  log = [];
}

abbrev body : Action (Site ℕ Db) Fault (Option ℕ)
body = run_job settings queued

serving_cycle_safe_example :
    let (r, s') = serving_cycle control vram sleep 50 5 body site in
    Skipped 50 5 site r s' ⊎ Ran 50 5 body site r s'
serving_cycle_safe_example = serving_cycle_safe control vram sleep 50 5 body site

abbrev real_control : Coordinator ℕ
real_control = real control vram sleep 50 5

process_next_job_safe_example :
    let (r, s') = process_next_job settings real_control (λ t. ltb t 20) 50 18 site in
    Idle settings site r s' ⊎ WorkedWith settings real_control (λ t. ltb t 20) 50 18 site r s'
process_next_job_safe_example =
    process_next_job_safe settings real_control (λ t. ltb t 20) 50 18 site

processes :
    (process_next_job settings (real control vram sleep 50 5) (λ t. ltb t 20) 50 18 site).0
    ≡ ok (some 1)
unfolding process_next_job next_claimable_run mark_stale_runs is_lapsed_running gpu_lock skip_poll
    cycle serving_cycle guarded stop_serving wait_for_vram read_vram run_job claim_training_run
    record_success complete_training_run transition restart_serving allocate_version
    ensure_model_row is_completed register_model_version notify_user compare_and_set goes_before
    lapsed valid_transition
processes = refl

process_next_job-Ended_example :
    Ended 1
      (process_next_job settings
        (real control vram sleep 50 5)
        (λ t. ltb t 20)
        50
        18
        site).1.data_of
process_next_job-Ended_example =
    process_next_job-Ended settings real_control (λ t. ltb t 20) 50 18 1 site processes

-- The host first answers an older request, then its own, at first without an end.
abbrev answer : ℕ → Phase → Response
answer id phase = record {
  request_id = id;
  phase = some phase;
  vllm_stopped = true;
  vram_free_mb = some 900;
  vllm_healthy = false;
}

abbrev responses : ℕ → Option Response
responses t =
    if ltb t 11
    then none
    else if ltb t 12
    then some (answer 4 vram_checked)
    else if ltb t 13
    then some (answer 5 stopping)
    else some (answer 5 vram_checked)

stops : stop_by_signal responses 5 8 10 ≡ ok (some 900)
unfolding stop_by_signal poll_response answers ends_stop is_error
stops = refl
