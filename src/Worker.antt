-- ===== src/Worker.antt =====
-- One iteration of the training worker: `process_next_job` in app/workers/training_worker.py, with
-- the queue, the claim, the lock, the serving cycle and the registration that it composes. Left out:
-- the heartbeat thread and the telemetry, which only write `heartbeat_at` and counters, and the
-- loop `run_forever` with its commit.
pub mod Job
pub mod Safety
use defnex_mlops.Base.{
  ◌∷◌, if◌then◌else◌, Action, Option, Result, ℕ, Bool, List, ok, some, err, none, true, false,
}
use defnex_mlops.Training.Outcome.{not_failed, not_running, invalid_transition}
use defnex_mlops.Orchestrator.{vram_not_free, serving_stop_failed, timeout_error}
use defnex_mlops.Registry.{ModelVersion, Versions, registered, update}
use defnex_mlops.Training.{
  Runs, TrainingRun, get_run, claim_training_run, mark_stale_runs, next_claimable_run, update_run,
}
use defnex_mlops.Orchestrator.{
  Fault, ServingControl, Site, VramReader, exception, serving_cycle, serving_stop_failed, job_run,
  is_exception, fault_text,
}
use defnex_mlops.Training.Outcome.{
  RunError, Usernames, Notice, invalid_transition, not_running, complete_training_run,
  fail_training_run,
}
use defnex_mlops.Registry.Register.{
  RegisterError, ModelTables, storage_error, not_completed, no_version_left, register_model_version,
}
use defnex_mlops.Registry.Lifecycle.{Attempt}
use defnex_mlops.GpuLock.{gpu_lock}

-- What the worker's session sees of the database.
pub record Db : Type 0 where
  pub runs : Runs
  pub tables : ModelTables
  pub notices : List Notice

-- `ServingCoordinator`: `NoopServingCoordinator`, or `RealServingCoordinator` with the threshold and
-- the timeout.
pub data Coordinator (W : Type 0) : Type 0 where
  noop : Coordinator W
  real : ServingControl W → VramReader W → (W → Bool × W) → ℕ → ℕ → Coordinator W

-- `SERVING_CONTROL` and `VRAM_READER`
pub data ServingMode : Type 0 where
  mock shell file_signal : ServingMode

pub data ReaderMode : Type 0 where
  stub nvidia_smi : ReaderMode

-- A text of an exception.
unfoldable pub run_error_text : RunError → ℕ
run_error_text invalid_transition = 1
run_error_text not_running = 2
run_error_text not_failed = 3

unfoldable pub register_fault : RegisterError → Fault
register_fault not_completed = exception 4
register_fault no_version_left = exception 5
register_fault (storage_error text) = exception text

-- `except (VRAMNotFree, ServingStopFailed)` and `except TimeoutError`: the poll is skipped.
unfoldable pub skips_poll : Fault → Bool
skips_poll vram_not_free = true
skips_poll (serving_stop_failed _) = true
skips_poll timeout_error = true
skips_poll _ = false

-- What the two handlers make of the result of the cycle.
unfoldable pub skip_poll : Result Fault (Option ℕ) → Result Fault (Option ℕ)
skip_poll (ok k) = ok k
skip_poll (err f) = if skips_poll f then ok none else err f

abbrev pub with_runs : Runs → Db → Db
with_runs t db = record db { runs = t }

abbrev pub notify : Option Notice → List Notice → List Notice
notify none l = l
notify (some n) l = n ∷ l

abbrev pub with_uri : ℕ → TrainingRun → TrainingRun
with_uri uri r = record r { artifact_uri = some uri }

abbrev pub become : TrainingRun → TrainingRun → TrainingRun
become r _ = r

-- What one iteration is given. `runner` is `resolve_runner_for_run` with the runner
-- that it gives: it may commit to the database, and returns the staging directory.
pub record WorkerSettings (W : Type 0) : Type 0 where
  pub users : Usernames
  pub max_stale_retries : ℕ
  pub stale_threshold : ℕ
  pub now : ℕ
  pub attempts : List Attempt
  pub finalize_version : ModelVersion → ℕ → Result ℕ (ℕ × ℕ)
  pub runner : TrainingRun → W → Db → Result Fault ℕ × W × Db

module _ {W : Type 0} where
  -- `coordinator.cycle()`
  unfoldable pub cycle :
      {A : Type 0} → Coordinator W → Action (Site W Db) Fault A → Action (Site W Db) Fault A
  cycle noop body = body
  cycle (real control vram sleep threshold_mb timeout) body =
      serving_cycle control vram sleep threshold_mb timeout body

  -- `make_coordinator`, with the coordinators that it builds for the two modes.
  unfoldable pub make_coordinator :
      Coordinator W → Coordinator W → ServingMode → ReaderMode → Result Fault (Coordinator W)
  make_coordinator shelled signalled shell nvidia_smi = ok shelled
  make_coordinator shelled signalled shell stub = err (exception 6)
  make_coordinator shelled signalled file_signal _ = ok signalled
  make_coordinator shelled signalled mock _ = ok noop

module _ {W : Type 0} (settings : WorkerSettings W) where
  -- `fail_training_run` on the row of the run.
  unfoldable pub record_failure : ℕ → ℕ → Action Db Fault (Option ℕ)
  record_failure k text db = elim (get_run k db.runs) [
    | none ↦ (err (exception 0), db)
    | some r ↦ elim (fail_training_run settings.users settings.now text r) [
      | err e ↦ (err (exception (run_error_text e)), db)
      | ok (r', notice) ↦ (
        ok (some k),
        record db { runs = update_run k (become r') db.runs; notices = notify notice db.notices },
      )
    ]
  ]

  -- `complete_training_run` and then `register_model_version`.
  unfoldable pub record_success : ℕ → ℕ → Action Db Fault (Option ℕ)
  record_success k staging_dir db = elim (get_run k db.runs) [
    | none ↦ (err (exception 0), db)
    | some r ↦ elim (complete_training_run settings.users settings.now staging_dir r) [
      | err e ↦ (err (exception (run_error_text e)), db)
      | ok (r', notice) ↦
          let done = record db {
            runs = update_run k (become r') db.runs;
            notices = notify notice db.notices;
          } in
          let (registered_as, tables) =
            register_model_version settings.finalize_version settings.attempts r' staging_dir
              db.tables in
          elim registered_as [
            | err e ↦ (err (register_fault e), record done { tables = tables })
            | ok (row, uri) ↦ (
              ok (some k),
              record done {
                runs = update_run k (become (with_uri uri r')) db.runs;
                tables = tables;
              },
            )
          ]
    ]
  ]

  -- The block under `coordinator.cycle()`.
  unfoldable pub run_job : TrainingRun → Action (Site W Db) Fault (Option ℕ)
  run_job run s =
      let k = run.training_run_id in
      let (claimed, t) =
        claim_training_run settings.max_stale_retries settings.now run s.data_of.runs in
      elim claimed [
        | false ↦ (ok none, record s { data_of = with_runs t s.data_of })
        | true ↦
            let (r, w, db) = settings.runner run s.host (with_runs t s.data_of) in
            let s' : Site W Db = record { host = w; data_of = db; log = job_run k ∷ s.log } in
            elim r [
              | ok staging_dir ↦
                  let (r', db') = record_success k staging_dir db in
                  (r', record s' { data_of = db' })
              | err f ↦ elim (is_exception f) [
                | false ↦ (err f, s')
                | true ↦
                    let (r', db') = record_failure k (fault_text f) db in
                    (r', record s' { data_of = db' })
              ]
            ]
      ]

  -- `process_next_job`; `held` tells when another process holds the GPU lock. The result is the id of
  -- the run that was processed.
  unfoldable pub process_next_job :
      Coordinator W → (ℕ → Bool) → ℕ → ℕ → Action (Site W Db) Fault (Option ℕ)
  process_next_job coordinator held lock_timeout start s =
      let (_, _, t) = mark_stale_runs settings.now settings.stale_threshold s.data_of.runs in
      let s1 = record s { data_of = with_runs t s.data_of } in
      elim (next_claimable_run t) [
        | none ↦ (ok none, s1)
        | some run ↦ elim (gpu_lock held lock_timeout start) [
          | none ↦ (ok none, s1)
          | some _ ↦ let (r, s2) = cycle coordinator (run_job run) s1 in (skip_poll r, s2)
        ]
      ]
