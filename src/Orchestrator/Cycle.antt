-- ===== src/Orchestrator/Cycle.antt =====
-- What a serving cycle guarantees, whatever the host answers and whatever the body does.
use defnex_mlops.Base.{
  ℕ, ◌∷◌, List, Bool, Result, Result-cases, ◌≤◌, inl, ◌<◌, ◌≡◌, err, false, inr, ok, suc, ◌+◌,
  Bool-cases, ◌⊎◌, ap, leb, refl, zero, arith, true, ◌∙◌, Action,
}
use defnex_mlops.Orchestrator.{
  CycleEvent, Fault, Site, VramReader, read_vram, is_exception, stop_asked, wait_for_vram,
  vram_read, serving_interrupted, exception, vram_not_free, serving_stop_failed, ServingControl,
  health_asked, serving_cycle, start_asked, guarded, stop_serving, restart_serving, fault_text,
  timeout_error,
}

-- A log that grew by a stop of serving and so many reads of too little memory.
pub data Polled (threshold_mb : ℕ) (old : List CycleEvent) : ℕ → List CycleEvent → Type 0 where
  stopped : Polled threshold_mb old 0 (stop_asked ∷ old)
  too_little :
      {n : ℕ} {log : List CycleEvent} (free : ℕ)
      → free < threshold_mb
      → Polled threshold_mb old n log
      → Polled threshold_mb old (suc n) (vram_read free ∷ log)

-- The log of a wait that succeeded: the last read found enough memory, in time.
pub record Found (threshold_mb limit : ℕ) (old log : List CycleEvent) : Type 0 where
  pub reads : ℕ
  pub before : List CycleEvent
  pub free : ℕ
  pub polled : Polled threshold_mb old reads before
  pub in_time : reads ≤ limit
  pub is_log : log ≡ vram_read free ∷ before
  pub enough : threshold_mb ≤ free

-- How the wait ends, for a log that was `old` before the stop.
abbrev Waited : ℕ → ℕ → List CycleEvent → Result Fault Unit → List CycleEvent → Type 0
Waited threshold_mb limit old r log =
    ((r ≡ ok tt) × Found threshold_mb limit old log)
    ⊎ (((r ≡ err vram_not_free) × Polled threshold_mb old (suc limit) log)
        ⊎ (r ≡ err serving_interrupted))

module _ {threshold_mb : ℕ} {old : List CycleEvent} where
  found :
      (n limit free : ℕ) (before log : List CycleEvent)
      → n ≤ limit
      → Polled threshold_mb old n before
      → log ≡ vram_read free ∷ before
      → leb threshold_mb free ≡ true
      → Found threshold_mb limit old log
  found n limit free before log h p l e = record {
    reads = n;
    before = before;
    free = free;
    polled = p;
    in_time = h;
    is_log = l;
    enough = ground arith;
  }

  one_more :
      (n free : ℕ) (before log : List CycleEvent)
      → Polled threshold_mb old n before
      → log ≡ vram_read free ∷ before
      → leb threshold_mb free ≡ false
      → Polled threshold_mb old (suc n) log
  one_more n free before log p l e = rw l (too_little free (ground arith) p)

not_exception : (f : Fault) → is_exception f ≡ false → f ≡ serving_interrupted
not_exception (exception x) h = cc
not_exception (serving_stop_failed x) h = cc
not_exception vram_not_free h = cc
not_exception timeout_error h = cc
not_exception serving_interrupted h = refl

-- Why a cycle that began with the log `old` ends without its body, and the log at that time.
pub data Refused (threshold_mb timeout : ℕ) (old : List CycleEvent)
    : Fault → List CycleEvent → Type 0 where
  not_stopped :
      (text : ℕ) → Refused threshold_mb timeout old (serving_stop_failed text) (stop_asked ∷ old)
  not_free :
      {log : List CycleEvent}
      → Polled threshold_mb old (suc timeout) log
      → Refused threshold_mb timeout old vram_not_free log
  was_interrupted :
      {log : List CycleEvent} → Refused threshold_mb timeout old serving_interrupted log

module _ {W D : Type 0} where
  abbrev IsRead : Site W D → Result Fault ℕ → Site W D → Type 0
  IsRead s r s' =
      (s'.data_of ≡ s.data_of)
      × ((r ≡ err serving_interrupted)
          ⊎ ((free : ℕ) × (r ≡ ok free) × (s'.log ≡ vram_read free ∷ s.log)))

  -- A read leaves the data alone, and its result is in the log unless it is interrupted.
  read_vram-IsRead :
      (vram : VramReader W) (s : Site W D) → IsRead s (read_vram vram s).0 (read_vram vram s).1
  unfolding read_vram
  read_vram-IsRead vram s = elim (Result-cases (vram.free_mb s.host).0) [
    | inl (free, e) ↦ rw (e, read_vram) (refl, inr (free, refl, refl))
    | inr (f, e) ↦ elim (Bool-cases (is_exception f)) [
      | inl x ↦ rw (e, x, read_vram) (refl, inr (0, refl, refl))
      | inr x ↦ rw (e, x, read_vram) (refl, inl (ap err (not_exception f x)))
    ]
  ]

  module _ (vram : VramReader W) (sleep : W → Bool × W) (threshold_mb : ℕ)
      (old : List CycleEvent) where
    wait_for_vram-Waited :
        (polls n limit : ℕ) (s : Site W D)
        → n + polls ≡ limit
        → Polled threshold_mb old n s.log
        → let (r, s') = wait_for_vram vram sleep threshold_mb polls s in
          Waited threshold_mb limit old r s'.log × (s'.data_of ≡ s.data_of)
    unfolding wait_for_vram
    wait_for_vram-Waited zero n limit s h p =
        let (same, read) = read_vram-IsRead vram s in
        elim read [
          | inl e ↦ rw (e, wait_for_vram) (inr (inr refl), same)
          | inr (free, e, l) ↦ elim (Bool-cases (leb threshold_mb free)) [
            | inl enough ↦
                rw (e, enough, wait_for_vram)
                  (inl (refl, found n limit free s.log _ (omega (arith, h)) p l enough), same)
            | inr little ↦
                let counted : suc n ≡ suc limit = omega (arith, h) in
                let more : Polled threshold_mb old (suc n) (read_vram vram s).1.log =
                  one_more n free s.log _ p l little in
                rw (e, little, wait_for_vram) (inr (inl (refl, rw counted at more)), same)
          ]
        ]
    wait_for_vram-Waited (suc polls) n limit s h p =
        let (same, read) = read_vram-IsRead vram s in
        elim read [
          | inl e ↦ rw (e, wait_for_vram) (inr (inr refl), same)
          | inr (free, e, l) ↦ elim (Bool-cases (leb threshold_mb free)) [
            | inl enough ↦
                rw (e, enough, wait_for_vram)
                  (inl (refl, found n limit free s.log _ (omega (arith, h)) p l enough), same)
            | inr little ↦ elim (Bool-cases (sleep (read_vram vram s).1.host).0) [
              | inl i ↦ rw (e, little, i, wait_for_vram) (inr (inr refl), same)
              | inr i ↦
                  let s' = record (read_vram vram s).1 {
                    host = (sleep (read_vram vram s).1.host).1;
                  } in
                  let (ends, kept) =
                    wait_for_vram-Waited polls (suc n) limit s' (omega (arith, h))
                      (one_more n free s.log _ p l little) in
                  rw (e, little, i, wait_for_vram) (ends, kept ∙ same)
            ]
          ]
        ]

  -- The cycle from `s` to `s'` had no body: nothing but the host and the log has changed.
  pub record Skipped {A : Type 0} (threshold_mb timeout : ℕ) (s : Site W D) (r : Result Fault A)
      (s' : Site W D) : Type 0 where
    pub reason : Fault
    pub raised : r ≡ err reason
    pub log_before : List CycleEvent
    pub refused : Refused threshold_mb timeout s.log reason log_before
    pub restarted : s'.log ≡ health_asked ∷ start_asked ∷ log_before
    pub untouched : s'.data_of ≡ s.data_of

  -- The cycle had its body, at a site where serving was stopped and the memory was free.
  pub record Ran {A : Type 0} (threshold_mb timeout : ℕ) (body : Action (Site W D) Fault A)
      (s : Site W D) (r : Result Fault A) (s' : Site W D) : Type 0 where
    pub site : Site W D
    pub safe : Found threshold_mb timeout s.log site.log
    pub same_data : site.data_of ≡ s.data_of
    pub result : r ≡ (body site).0
    pub restarted : s'.log ≡ health_asked ∷ start_asked ∷ (body site).1.log
    pub outcome : s'.data_of ≡ (body site).1.data_of

  stop_serving-log :
      (control : ServingControl W) (s : Site W D)
      → let s' = (stop_serving control s).1 in
        (s'.log ≡ stop_asked ∷ s.log) × (s'.data_of ≡ s.data_of)
  unfolding stop_serving
  stop_serving-log control s = elim (Result-cases (control.stop s.host).0) [
    | inl (u, e) ↦ rw (e, stop_serving) (refl, refl)
    | inr (f, e) ↦ rw (e, stop_serving) (refl, refl)
  ]

  module _ (control : ServingControl W) (vram : VramReader W) (sleep : W → Bool × W) where
    -- Whatever the host answers and however the body ends, the last that a cycle does is to restart
    -- serving and to check its health; its body runs only after serving was stopped and a read, at most
    -- `timeout` polls later, found at least the threshold free; without the body, the data are left as
    -- they were, and `VRAMNotFree` is raised only after `timeout` + 1 reads of less than the threshold.
    pub serving_cycle_safe :
        {A : Type 0} (threshold_mb timeout : ℕ) (body : Action (Site W D) Fault A) (s : Site W D)
        → let (r, s') = serving_cycle control vram sleep threshold_mb timeout body s in
          Skipped threshold_mb timeout s r s' ⊎ Ran threshold_mb timeout body s r s'
    unfolding serving_cycle guarded stop_serving restart_serving
    serving_cycle_safe threshold_mb timeout body s =
        let (stop_log, stop_data) = stop_serving-log control s in
        elim (Result-cases (control.stop s.host).0) [
          | inr (f, e) ↦ elim (Bool-cases (is_exception f)) [
            | inl x ↦
                rw (e, x, stop_serving, guarded, serving_cycle)
                  (inl (record {
                    reason = serving_stop_failed (fault_text f);
                    raised = refl;
                    log_before = stop_asked ∷ s.log;
                    refused = not_stopped (fault_text f);
                    restarted = ap (λ l. health_asked ∷ start_asked ∷ l) stop_log;
                    untouched = stop_data;
                  }))
            | inr x ↦
                rw (e, x, stop_serving, guarded, serving_cycle)
                  (inl (record {
                    reason = f;
                    raised = refl;
                    log_before = stop_asked ∷ s.log;
                    refused = rw (not_exception f x) was_interrupted;
                    restarted = ap (λ l. health_asked ∷ start_asked ∷ l) stop_log;
                    untouched = stop_data;
                  }))
          ]
          | inl (u, e) ↦
              let s1 = (stop_serving control s).1 in
              let (ends, kept) =
                wait_for_vram-Waited vram sleep threshold_mb s.log timeout 0 timeout s1
                  (omega arith) (rw stop_log stopped) in
              let same = kept ∙ stop_data in
              let stopped_ok : (stop_serving control s).0 ≡ ok tt = rw (e, stop_serving) refl in
              elim ends [
                | inl (w, fnd) ↦
                    rw (stopped_ok, w, guarded, serving_cycle)
                      (inr (record {
                        site = (wait_for_vram vram sleep threshold_mb timeout s1).1;
                        safe = fnd;
                        same_data = same;
                        result = refl;
                        restarted = refl;
                        outcome = refl;
                      }))
                | inr (inl (w, polled)) ↦
                    rw (stopped_ok, w, guarded, serving_cycle)
                      (inl (record {
                        reason = vram_not_free;
                        raised = refl;
                        log_before = (wait_for_vram vram sleep threshold_mb timeout s1).1.log;
                        refused = not_free polled;
                        restarted = refl;
                        untouched = same;
                      }))
                | inr (inr w) ↦
                    rw (stopped_ok, w, guarded, serving_cycle)
                      (inl (record {
                        reason = serving_interrupted;
                        raised = refl;
                        log_before = (wait_for_vram vram sleep threshold_mb timeout s1).1.log;
                        refused = was_interrupted;
                        restarted = refl;
                        untouched = same;
                      }))
              ]
        ]
