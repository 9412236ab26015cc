-- ===== src/Worker/Safety.antt =====
-- What an iteration of the worker does to the GPU, the queue and the run.
use defnex_mlops.Base.{
  ◌∷◌, ℕ, Bool, Result, Option, ◌≡◌, ok, some, none, ◌⊎◌, err, Option-cases, inl, inr, refl, sym,
  Bool-cases, List, ◌∙◌,
}
use defnex_mlops.Orchestrator.Cycle.{was_interrupted}
use mathlib.Core.Path.{subst}
use defnex_mlops.Worker.{
  Db, WorkerSettings, with_runs, process_next_job, cycle, skips_poll, real, noop, Coordinator,
  run_job, skip_poll,
}
use defnex_mlops.Orchestrator.{
  Site, Fault, health_asked, serving_interrupted, start_asked, CycleEvent,
}
use defnex_mlops.Training.{mark_stale_runs, TrainingRun, next_claimable_run}
use defnex_mlops.GpuLock.{gpu_lock}
use defnex_mlops.Orchestrator.Cycle.{Found, serving_cycle_safe, Refused, not_stopped, not_free}
use defnex_mlops.Worker.Job.{Ended, run_job-Ended}

Refused-skip_poll :
    {threshold_mb timeout : ℕ} {old log : List CycleEvent} (f : Fault)
    → Refused threshold_mb timeout old f log
    → (skip_poll (err f) ≡ ok none) ⊎ (skip_poll (err f) ≡ err serving_interrupted)
unfolding skip_poll skips_poll
Refused-skip_poll _ (not_stopped text) = inl refl
Refused-skip_poll _ (not_free p) = inl refl
Refused-skip_poll _ was_interrupted = inr refl

skip_poll-some : (r : Result Fault (Option ℕ)) (k : ℕ) → skip_poll r ≡ ok (some k) → r ≡ ok (some k)
unfolding skip_poll
skip_poll-some (ok x) k h = h
skip_poll-some (err f) k h = elim (Bool-cases (skips_poll f)) [
  | inl e ↦ absurd (let h' = rw e at h in cc h')
  | inr e ↦ absurd (let h' = rw e at h in cc h')
]

module _ {W : Type 0} (settings : WorkerSettings W) where
  -- The database after the recovery pass with which an iteration begins.
  abbrev pub recovered : Db → Db
  recovered db = with_runs (mark_stale_runs settings.now settings.stale_threshold db.runs).2 db

  -- The iteration ran a job: on the first run of the queue, with the GPU lock taken, at a site where
  -- serving was stopped and enough memory was free; and serving was restarted after the job.
  pub record Worked (threshold_mb timeout : ℕ) (held : ℕ → Bool) (lock_timeout start : ℕ)
      (s : Site W Db) (r : Result Fault (Option ℕ)) (s' : Site W Db) : Type 0 where
    pub run : TrainingRun
    pub chosen : next_claimable_run (recovered s.data_of).runs ≡ some run
    pub locked_at : ℕ
    pub locked : gpu_lock held lock_timeout start ≡ some locked_at
    pub site : Site W Db
    pub safe : Found threshold_mb timeout s.log site.log
    pub same_data : site.data_of ≡ recovered s.data_of
    pub processed : (k : ℕ) → r ≡ ok (some k) → (run_job settings run site).0 ≡ ok (some k)
    pub restarted : s'.log ≡ health_asked ∷ start_asked ∷ (run_job settings run site).1.log
    pub outcome : s'.data_of ≡ (run_job settings run site).1.data_of

  -- With the coordinator that does nothing, the job ran on the first run of the queue and under the GPU
  -- lock, beside a serving process that was left alone.
  pub record WorkedBeside (held : ℕ → Bool) (lock_timeout start : ℕ) (s : Site W Db)
      (r : Result Fault (Option ℕ)) (s' : Site W Db) : Type 0 where
    pub run : TrainingRun
    pub chosen : next_claimable_run (recovered s.data_of).runs ≡ some run
    pub locked_at : ℕ
    pub locked : gpu_lock held lock_timeout start ≡ some locked_at
    pub returned :
        r ≡ skip_poll (run_job settings run (record s { data_of = recovered s.data_of })).0
    pub outcome : s' ≡ (run_job settings run (record s { data_of = recovered s.data_of })).1

  -- How an iteration that ran a job went, by its coordinator.
  abbrev pub WorkedWith :
      Coordinator W → (ℕ → Bool) → ℕ → ℕ → Site W Db → Result Fault (Option ℕ) → Site W Db → Type 0
  WorkedWith noop held lock_timeout start s r s' = WorkedBeside held lock_timeout start s r s'
  WorkedWith (real _ _ _ threshold_mb timeout) held lock_timeout start s r s' =
      Worked threshold_mb timeout held lock_timeout start s r s'

  -- The iteration did nothing to the data but its recovery pass, and returns no run or was interrupted.
  abbrev pub Idle : Site W Db → Result Fault (Option ℕ) → Site W Db → Type 0
  Idle s r s' = (s'.data_of ≡ recovered s.data_of) × ((r ≡ ok none) ⊎ (r ≡ err serving_interrupted))

  -- An iteration of the worker either changed nothing in the database beyond its recovery pass, and
  -- returns no run or was interrupted; or it ran its job on the first run of the queue, under the GPU
  -- lock. With a coordinator that controls the serving process, it ran it only after serving was stopped
  -- and a read found enough memory, and restarted serving after it; with the one that does nothing,
  -- which is that of SERVING_CONTROL=mock, it ran the job alone.
  pub process_next_job_safe :
      (c : Coordinator W) (held : ℕ → Bool) (lock_timeout start : ℕ) (s : Site W Db)
      → let (r, s') = process_next_job settings c held lock_timeout start s in
        Idle s r s' ⊎ WorkedWith c held lock_timeout start s r s'
  unfolding process_next_job cycle
  process_next_job_safe noop held lock_timeout start s =
      elim (Option-cases (next_claimable_run (recovered s.data_of).runs)) [
        | inl e ↦ rw (e, process_next_job) (inl (refl, inl refl))
        | inr (run, e) ↦ elim (Option-cases (gpu_lock held lock_timeout start)) [
          | inl l ↦ rw (e, l, process_next_job) (inl (refl, inl refl))
          | inr (u, l) ↦
              rw (e, l, process_next_job, cycle)
                (inr (record {
                  run = run;
                  chosen = e;
                  locked_at = u;
                  locked = l;
                  returned = refl;
                  outcome = refl;
                }))
        ]
      ]
  process_next_job_safe (real control vram sleep threshold_mb timeout) held lock_timeout start s =
      let s1 = record s { data_of = recovered s.data_of } in
      elim (Option-cases (next_claimable_run (recovered s.data_of).runs)) [
        | inl e ↦ rw (e, process_next_job) (inl (refl, inl refl))
        | inr (run, e) ↦ elim (Option-cases (gpu_lock held lock_timeout start)) [
          | inl l ↦ rw (e, l, process_next_job) (inl (refl, inl refl))
          | inr (u, l) ↦
              elim (serving_cycle_safe control vram sleep threshold_mb timeout
                (run_job settings run) s1) [
                  | inl c ↦
                      rw (e, l, process_next_job, cycle)
                        (inl (c.untouched, rw c.raised (Refused-skip_poll c.reason c.refused)))
                  | inr c ↦
                      rw (e, l, process_next_job, cycle)
                        (inr (record {
                          run = run;
                          chosen = e;
                          locked_at = u;
                          locked = l;
                          site = c.site;
                          safe = c.safe;
                          same_data = c.same_data;
                          processed = λ k h. sym c.result ∙ skip_poll-some _ k h;
                          restarted = c.restarted;
                          outcome = c.outcome;
                        }))
                ]
        ]
      ]

  -- A run that a job reports as processed is ended by it.
  WorkedWith-Ended :
      (c : Coordinator W) (held : ℕ → Bool) (lock_timeout start k : ℕ) (s s' : Site W Db)
      (r : Result Fault (Option ℕ))
      → WorkedWith c held lock_timeout start s r s'
      → r ≡ ok (some k)
      → Ended k s'.data_of
  WorkedWith-Ended noop held lock_timeout start k s s' r w h =
      let s1 = record s { data_of = recovered s.data_of } in
      let (same, ended) =
        run_job-Ended settings w.run s1 k (skip_poll-some _ k (sym w.returned ∙ h)) in
      rw w.outcome (subst (λ i. Ended i (run_job settings w.run s1).1.data_of) (sym same) ended)
  WorkedWith-Ended (real _ _ _ _ _) held lock_timeout start k s s' r w h =
      let (same, ended) = run_job-Ended settings w.run w.site k (w.processed k h) in
      rw w.outcome (subst (λ i. Ended i (run_job settings w.run w.site).1.data_of) (sym same) ended)

  -- A run that an iteration of the worker reports as processed is FAILED afterwards, or COMPLETED with a
  -- model version of it in the registry, whatever its coordinator is, and whatever the runner did to the
  -- database.
  pub process_next_job-Ended :
      (c : Coordinator W) (held : ℕ → Bool) (lock_timeout start k : ℕ) (s : Site W Db)
      → (process_next_job settings c held lock_timeout start s).0 ≡ ok (some k)
      → Ended k (process_next_job settings c held lock_timeout start s).1.data_of
  process_next_job-Ended c held lock_timeout start k s h =
      elim (process_next_job_safe c held lock_timeout start s) [
        | inl (_, inl e) ↦ absurd (let no = sym h ∙ e in cc no)
        | inl (_, inr e) ↦ absurd (let no = sym h ∙ e in cc no)
        | inr w ↦ WorkedWith-Ended c held lock_timeout start k s _ _ w h
      ]
