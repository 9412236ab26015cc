-- ===== src/Orchestrator.antt =====
-- The serving cycle around a training run: app/workers/gpu_orchestrator.py. `ServingControl` and
-- `VRAMReader` are its two protocols, as actions on a host that the model knows nothing about;
-- `sleep` is the wait of one poll,
-- and says whether SIGTERM came in it. Time is counted in polls, as it is for the lock: `timeout` is the
-- number of polls before the deadline. The log of a site, newest first, records what was asked of
-- the host; the code keeps no such log.
pub mod Cycle
pub mod Signal
use defnex_mlops.Base.{
  ℕ, zero, suc, Bool, true, false, List, ◌∷◌, leb, Result, ok, err, Action, if◌then◌else◌,
}

-- What a call raises. `ServingInterrupted` is what the handler of SIGTERM raises.
pub data Fault : Type 0 where
  exception : ℕ → Fault
  serving_stop_failed : ℕ → Fault
  vram_not_free timeout_error : Fault
  serving_interrupted : Fault

-- `except Exception`: all but `ServingInterrupted`, which is a `BaseException`.
abbrev pub is_exception : Fault → Bool
is_exception serving_interrupted = false
is_exception _ = true

-- `str(exc)`
abbrev pub fault_text : Fault → ℕ
fault_text (exception text) = text
fault_text (serving_stop_failed text) = text
fault_text vram_not_free = 0
fault_text timeout_error = 0
fault_text serving_interrupted = 0

pub data CycleEvent : Type 0 where
  stop_asked start_asked health_asked : CycleEvent
  vram_read : ℕ → CycleEvent
  job_run : ℕ → CycleEvent

pub record ServingControl (W : Type 0) : Type 0 where
  pub stop : Action W Fault Unit
  pub start : Action W Fault Unit
  pub health_check : Action W Fault Bool

pub record VramReader (W : Type 0) : Type 0 where
  pub free_mb : Action W Fault ℕ

-- A host with the data of the worker beside it.
pub record Site (W D : Type 0) : Type 0 where
  pub host : W
  pub data_of : D
  pub log : List CycleEvent

module _ {W D : Type 0} where
  -- A call of the host, logged.
  abbrev pub ask : {A : Type 0} → CycleEvent → Action W Fault A → Action (Site W D) Fault A
  ask e call s = let (r, w) = call s.host in (r, record s { host = w; log = e ∷ s.log })

  -- `control.stop()`, whose failure is a domain failure.
  unfoldable pub stop_serving : ServingControl W → Action (Site W D) Fault Unit
  stop_serving control s =
      let (r, s') = ask stop_asked control.stop s in
      elim r [
        | ok _ ↦ (ok tt, s')
        | err f ↦ (if is_exception f then err (serving_stop_failed (fault_text f)) else err f, s')
      ]

  -- `vram.free_mb()`: a read that fails counts as no memory.
  unfoldable pub read_vram : VramReader W → Action (Site W D) Fault ℕ
  read_vram vram s =
      let (r, w) = vram.free_mb s.host in
      elim r [
        | ok free ↦ (ok free, record s { host = w; log = vram_read free ∷ s.log })
        | err f ↦ (
          if is_exception f then ok 0 else err f,
          record s { host = w; log = vram_read 0 ∷ s.log },
        )
      ]

  module _ (vram : VramReader W) (sleep : W → Bool × W) (threshold_mb : ℕ) where
    -- The loop that waits for the memory, with so many polls left before the deadline.
    unfoldable pub wait_for_vram : ℕ → Action (Site W D) Fault Unit
    wait_for_vram zero s =
        let (r, s') = read_vram vram s in
        elim r [
          | err f ↦ (err f, s')
          | ok free ↦ (if leb threshold_mb free then ok tt else err vram_not_free, s')
        ]
    wait_for_vram (suc polls) s =
        let (r, s') = read_vram vram s in
        elim r [
          | err f ↦ (err f, s')
          | ok free ↦ elim (leb threshold_mb free) [
            | true ↦ (ok tt, s')
            | false ↦
                let (interrupted, w) = sleep s'.host in
                elim interrupted [
                  | true ↦ (err serving_interrupted, record s' { host = w })
                  | false ↦ wait_for_vram polls (record s' { host = w })
                ]
          ]
        ]

  -- The `finally` block: what fails here is logged and never raised.
  unfoldable pub restart_serving : ServingControl W → Site W D → Site W D
  restart_serving control s =
      let (_, s1) = ask start_asked control.start s in
      let (_, s2) = ask health_asked control.health_check s1 in s2

  module _ (control : ServingControl W) (vram : VramReader W) (sleep : W → Bool × W) where
    -- The `try` block around the `yield`.
    unfoldable pub guarded :
        {A : Type 0} → ℕ → ℕ → Action (Site W D) Fault A → Action (Site W D) Fault A
    guarded threshold_mb timeout body s =
        let (r, s1) = stop_serving control s in
        elim r [
          | err f ↦ (err f, s1)
          | ok _ ↦
              let (r', s2) = wait_for_vram vram sleep threshold_mb timeout s1 in
              elim r' [ err f ↦ (err f, s2) | ok _ ↦ body s2 ]
        ]

    -- `serving_cycle`, with the block under its `with` as the body.
    unfoldable pub serving_cycle :
        {A : Type 0} → ℕ → ℕ → Action (Site W D) Fault A → Action (Site W D) Fault A
    serving_cycle threshold_mb timeout body s =
        let (r, s') = guarded threshold_mb timeout body s in (r, restart_serving control s')
