-- ===== src/Training/Liveness.antt =====
-- Stale runs: who is marked, who is not, and what a heartbeat is good for.
use defnex_mlops.Base.{
  ℕ, Bool, keep, length, ◌≡◌, [], count, false, some, ◌≤◌, if◌then◌else◌, none, refl, sym, ◌+◌, ◌∷◌,
  Bool-cases, Option-cases, arith, inl, inr,
}
use defnex_mlops.Training.{
  TrainingRun, Runs, is_lapsed_running, mark_stale_runs, touch_heartbeat, get_run, mark_stale,
  stale_runs, mark_each, running, beat, update_run, lapsed,
}
use defnex_mlops.Training.Rows.{get_run-mark_each, get_run-update_run_self}

length-keep : (p : TrainingRun → Bool) (t : Runs) → length (keep p t) ≡ count p t
length-keep p [] = refl
length-keep p (r ∷ t) = ground (arith, length-keep p t)

mark_stale_calm :
    (now threshold : ℕ) (r : TrainingRun) → is_lapsed_running now threshold (mark_stale r) ≡ false
unfolding is_lapsed_running
mark_stale_calm now threshold r = refl

stale_runs-mark_each :
    (now threshold : ℕ) (t : Runs)
    → keep (is_lapsed_running now threshold) (mark_each (is_lapsed_running now threshold) t) ≡ []
stale_runs-mark_each now threshold [] = refl
stale_runs-mark_each now threshold (r ∷ t) = elim (Bool-cases (is_lapsed_running now threshold r)) [
  | inl e ↦ rw (e, mark_stale_calm now threshold r) (stale_runs-mark_each now threshold t)
  | inr e ↦ rw (e, e) (stale_runs-mark_each now threshold t)
]

-- The recovery pass marks as many runs as the detector reports, and right after it the detector
-- reports none.
pub mark_stale_runs_complete :
    (now threshold : ℕ) (t : Runs)
    → let (flipped, _, marked) = mark_stale_runs now threshold t in
      (flipped ≡ length (stale_runs now threshold t)) × (stale_runs now threshold marked ≡ [])
unfolding mark_stale_runs stale_runs
mark_stale_runs_complete now threshold t =
    (sym (length-keep (is_lapsed_running now threshold) t), stale_runs-mark_each now threshold t)

-- The pass changes a run exactly if it is RUNNING and has lapsed, and then only its status.
pub mark_stale_runs_row :
    (now threshold k : ℕ) (t : Runs) (r : TrainingRun)
    → get_run k t ≡ some r
    → get_run k (mark_stale_runs now threshold t).2
      ≡ some (if is_lapsed_running now threshold r then mark_stale r else r)
unfolding mark_stale_runs
mark_stale_runs_row now threshold k t r h =
    get_run-mark_each k (is_lapsed_running now threshold) t r h

-- A run whose heartbeat was written at most `threshold` seconds ago survives the recovery pass.
pub heartbeat_protects :
    (beat_at now threshold k : ℕ) (t : Runs)
    → (touch_heartbeat k beat_at t).0 ≡ 1
    → now ≤ beat_at + threshold
    → (r : TrainingRun) × (get_run k
          (mark_stale_runs now threshold (touch_heartbeat k beat_at t).1).2
        ≡ some r)
      × (r.status ≡ running)
unfolding touch_heartbeat is_lapsed_running lapsed
heartbeat_protects beat_at now threshold k t h fresh = elim (Option-cases (get_run k t)) [
  | inl e ↦ ground arith
  | inr (r, e) ↦
      let found = get_run-update_run_self k (beat beat_at) t r (λ x. refl) e in
      let row =
        mark_stale_runs_row now threshold k (update_run k (beat beat_at) t) (beat beat_at r)
          found in
      (beat beat_at r, ground (arith, row), ground arith)
]

-- A RUNNING run without a heartbeat is marked by the next pass, however recently it was started.
pub no_heartbeat_is_stale :
    (now threshold k : ℕ) (t : Runs) (r : TrainingRun)
    → get_run k t ≡ some r
    → r.status ≡ running
    → r.heartbeat_at ≡ none
    → get_run k (mark_stale_runs now threshold t).2 ≡ some (mark_stale r)
unfolding is_lapsed_running
no_heartbeat_is_stale now threshold k t r h s e =
    ground (arith, mark_stale_runs_row now threshold k t r h)
