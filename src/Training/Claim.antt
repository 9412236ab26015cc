-- ===== src/Training/Claim.antt =====
-- A run is executed by one worker, and reclaimed a bounded number of times.
use defnex_mlops.Base.{
  ℕ, ◌≡◌, some, true, Option-cases, false, inl, arith, inr, ◌+◌, refl, Bool-cases, ltb, ◌≤◌,
}
use defnex_mlops.Training.{
  TrainingRun, Runs, claim_training_run, compare_and_set, get_run, is_claimable, running, begin,
  with_retry_count, update_run, is_stale, stale, exhaust,
}
use defnex_mlops.Training.Rows.{get_run-update_run_self, get_run-update_run-none}

-- The compare-and-set succeeds exactly on a row that is PENDING or STALE, and makes it RUNNING.
pub record Won (k now : ℕ) (t t' : Runs) : Type 0 where
  pub row : TrainingRun
  pub stored : get_run k t ≡ some row
  pub claimable : is_claimable row.status ≡ true
  pub begun : get_run k t' ≡ some (begin now row)

compare_and_set-Won :
    (k now : ℕ) (t : Runs)
    → (compare_and_set k now t).0 ≡ true
    → Won k now t (compare_and_set k now t).1
unfolding compare_and_set
compare_and_set-Won k now t h = elim (Option-cases (get_run k t)) [
  | inl e ↦ ground arith
  | inr (r, e) ↦
      let c : is_claimable r.status ≡ true = ground arith in
      record {
        row = r;
        stored = e;
        claimable = c;
        begun = ground (arith, get_run-update_run_self k (begin now) t r (λ x. refl) e);
      }
]

compare_and_set_running :
    (k now : ℕ) (t : Runs) (r : TrainingRun)
    → get_run k t ≡ some r
    → r.status ≡ running
    → (compare_and_set k now t).0 ≡ false
unfolding compare_and_set
compare_and_set_running k now t r h e = ground arith

-- No claim of a run that the database has as RUNNING succeeds, whatever the claimer had loaded.
pub claim_running :
    (limit now : ℕ) (run : TrainingRun) (t : Runs) (r : TrainingRun)
    → get_run run.training_run_id t ≡ some r
    → r.status ≡ running
    → (claim_training_run limit now run t).0 ≡ false
unfolding claim_training_run
claim_running limit now run t r h e =
    let k = run.training_run_id in
    let counted = with_retry_count (run.retry_count + 1) in
    ground (
      arith,
      compare_and_set_running k now t r h e,
      compare_and_set_running k now (update_run k counted t) (counted r)
          (get_run-update_run_self k counted t r (λ x. refl) h) e,
    )

-- What a successful claim says of the run: the database had it as PENDING or STALE, and it is
-- RUNNING now, its clock and heartbeat started. A claim of a run loaded as STALE has counted one
-- more retry, and that count is within the limit.
pub record Claimed (limit now : ℕ) (run : TrainingRun) (t t' : Runs) : Type 0 where
  pub row : TrainingRun
  pub stored : get_run run.training_run_id t ≡ some row
  pub claimable : is_claimable row.status ≡ true
  pub after : TrainingRun
  pub begun : get_run run.training_run_id t' ≡ some after
  pub is_live :
      (after.status ≡ running) × (after.started_at ≡ some now) × (after.heartbeat_at ≡ some now)
  pub bounded :
      run.status ≡ stale → (after.retry_count ≡ run.retry_count + 1) × (after.retry_count ≤ limit)

claim_fresh-Claimed :
    (limit now : ℕ) (run : TrainingRun) (t : Runs)
    → is_stale run.status ≡ false
    → (claim_training_run limit now run t).0 ≡ true
    → Claimed limit now run t (claim_training_run limit now run t).1
unfolding claim_training_run
claim_fresh-Claimed limit now run t s h =
    let k = run.training_run_id in
    let won : Won k now t (compare_and_set k now t).1 =
      compare_and_set-Won k now t (ground arith) in
    record {
      row = won.row;
      stored = won.stored;
      claimable = won.claimable;
      after = begin now won.row;
      begun = ground (arith, won.begun);
      is_live = (refl, refl, refl);
      bounded = λ e. absurd (ground arith);
    }

claim_stale-Claimed :
    (limit now : ℕ) (run : TrainingRun) (t : Runs)
    → is_stale run.status ≡ true
    → (claim_training_run limit now run t).0 ≡ true
    → Claimed limit now run t (claim_training_run limit now run t).1
unfolding claim_training_run
claim_stale-Claimed limit now run t s h =
    let k = run.training_run_id in
    let counted = with_retry_count (run.retry_count + 1) in
    let t' = update_run k counted t in
    let within : ltb limit (run.retry_count + 1) ≡ false = ground arith in
    let won : Won k now t' (compare_and_set k now t').1 =
      compare_and_set-Won k now t' (ground arith) in
    elim (Option-cases (get_run k t)) [
      | inl e ↦ absurd (ground (arith, won.stored, get_run-update_run-none k counted t e))
      | inr (r, e) ↦
          let found = get_run-update_run_self k counted t r (λ x. refl) e in
          record {
            row = r;
            stored = e;
            claimable = ground (arith, won.stored, won.claimable, found);
            after = begin now won.row;
            begun = ground (arith, won.begun);
            is_live = (refl, refl, refl);
            bounded = λ _. ground (arith, won.stored, found);
          }
    ]

-- A claim that succeeds took a run that was PENDING or STALE in the database and made it RUNNING,
-- with its clock and heartbeat started; from STALE it counts one retry, within the limit.
pub claim_training_run-Claimed :
    (limit now : ℕ) (run : TrainingRun) (t : Runs)
    → (claim_training_run limit now run t).0 ≡ true
    → Claimed limit now run t (claim_training_run limit now run t).1
claim_training_run-Claimed limit now run t h = elim (Bool-cases (is_stale run.status)) [
  | inl s ↦ claim_stale-Claimed limit now run t s h
  | inr s ↦ claim_fresh-Claimed limit now run t s h
]

-- Of two workers that have loaded the same run, whatever each of them saw, the second loses when
-- the first has won.
pub claim_training_run_exclusive :
    (limit now now' : ℕ) (run run' : TrainingRun) (t : Runs)
    → run'.training_run_id ≡ run.training_run_id
    → (claim_training_run limit now run t).0 ≡ true
    → (claim_training_run limit now' run' (claim_training_run limit now run t).1).0 ≡ false
claim_training_run_exclusive limit now now' run run' t same h =
    let c = claim_training_run-Claimed limit now run t h in
    claim_running limit now' run' (claim_training_run limit now run t).1 c.after (rw same c.begun)
      c.is_live.0

-- A run that was reclaimed as often as the limit allows is not run again: it becomes FAILED, with
-- the reason, and the claim does not succeed.
pub claim_exhausted :
    (limit now : ℕ) (run : TrainingRun) (t : Runs)
    → get_run run.training_run_id t ≡ some run
    → run.status ≡ stale
    → limit ≤ run.retry_count
    → ((claim_training_run limit now run t).0 ≡ false)
      × (get_run run.training_run_id (claim_training_run limit now run t).1
          ≡ some (exhaust limit now run))
unfolding claim_training_run
claim_exhausted limit now run t f s full =
    ground
      (arith, get_run-update_run_self run.training_run_id (exhaust limit now) t run (λ x. refl) f)
