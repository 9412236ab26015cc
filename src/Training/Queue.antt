-- ===== src/Training/Queue.antt =====
-- The claim queue: priority first, then age.
use defnex_mlops.Base.{
  arith, ◌<◌, ◌∷◌, ◌≡◌, false, true, ◌⊎◌, [], ◌≤◌, Option, none, some, Bool-cases, inr, inl, refl,
  any, ◌≢◌,
}
use defnex_mlops.Training.{
  TrainingRun, Runs, goes_before, priority_rank, is_claimable, first_claimable, next_claimable_run,
}
use mathlib.Core.Path.{subst}

-- `a` comes no later than `b` in the order of the queue.
abbrev pub NotAfter : TrainingRun → TrainingRun → Type 0
NotAfter a b =
    (priority_rank b.priority < priority_rank a.priority)
    ⊎ ((priority_rank a.priority ≡ priority_rank b.priority) × (a.created_at ≤ b.created_at))

-- Every claimable run of the table comes no earlier than `a`.
abbrev pub FirstOf : TrainingRun → Runs → Type 0
FirstOf a [] = Unit
FirstOf a (r ∷ t) = (is_claimable r.status ≡ true → NotAfter a r) × FirstOf a t

goes_before-false : (a b : TrainingRun) → goes_before a b ≡ false → NotAfter b a
unfolding goes_before
goes_before-false a b h = grind arith

goes_before-true : (a b : TrainingRun) → goes_before a b ≡ true → NotAfter a b
unfolding goes_before
goes_before-true a b h = grind arith

NotAfter-trans : (a b c : TrainingRun) → NotAfter a b → NotAfter b c → NotAfter a c
NotAfter-trans a b c h k = omega arith

FirstOf-trans : (a b : TrainingRun) (t : Runs) → NotAfter a b → FirstOf b t → FirstOf a t
FirstOf-trans a b [] h k = tt
FirstOf-trans a b (r ∷ t) h k = (λ c. NotAfter-trans a b r h (k.0 c), FirstOf-trans a b t h k.1)

-- The run is a row of the table.
abbrev pub Has : TrainingRun → Runs → Type 0
Has run [] = ⊥
Has run (r ∷ t) = (run ≡ r) ⊎ Has run t

-- What the scan of the queue has found when it starts from a claimable run.
record Found (best : TrainingRun) (t : Runs) (o : Option TrainingRun) : Type 0 where
  run : TrainingRun
  is : o ≡ some run
  claimable : is_claimable run.status ≡ true
  member : (run ≡ best) ⊎ Has run t
  not_after : NotAfter run best
  first : FirstOf run t

later :
    (run best r : TrainingRun) (t : Runs)
    → (run ≡ best) ⊎ Has run t
    → (run ≡ best) ⊎ ((run ≡ r) ⊎ Has run t)
later run best r t (inl e) = inl e
later run best r t (inr h) = inr (inr h)

first_claimable-Found :
    (best : TrainingRun) (t : Runs)
    → is_claimable best.status ≡ true
    → Found best t (first_claimable (some best) t)
unfolding first_claimable
first_claimable-Found best [] c = record {
  run = best;
  is = refl;
  claimable = c;
  member = inl refl;
  not_after = inr (refl, omega arith);
  first = tt;
}
first_claimable-Found best (r ∷ t) c = elim (Bool-cases (is_claimable r.status)) [
  | inr skip ↦
      let rest = first_claimable-Found best t c in
      rw skip (record {
        run = rest.run;
        is = rest.is;
        claimable = rest.claimable;
        member = later rest.run best r t rest.member;
        not_after = rest.not_after;
        first = (λ e. cc, rest.first);
      })
  | inl take ↦ elim (Bool-cases (goes_before r best)) [
    | inl better ↦
        let rest = first_claimable-Found r t take in
        let ahead = goes_before-true r best better in
        rw (take, better)
          (record {
            run = rest.run;
            is = rest.is;
            claimable = rest.claimable;
            member = inr rest.member;
            not_after = NotAfter-trans rest.run r best rest.not_after ahead;
            first = (λ _. rest.not_after, rest.first);
          })
    | inr worse ↦
        let rest = first_claimable-Found best t c in
        let behind = goes_before-false r best worse in
        rw (take, worse)
          (record {
            run = rest.run;
            is = rest.is;
            claimable = rest.claimable;
            member = later rest.run best r t rest.member;
            not_after = rest.not_after;
            first = (λ _. NotAfter-trans rest.run best r rest.not_after behind, rest.first);
          })
  ]
]

first_claimable_sound :
    (t : Runs) (run : TrainingRun)
    → first_claimable none t ≡ some run
    → (is_claimable run.status ≡ true) × Has run t × FirstOf run t
unfolding first_claimable
first_claimable_sound [] run h = cc
first_claimable_sound (r ∷ t) run h = elim (Bool-cases (is_claimable r.status)) [
  | inr skip ↦
      let (c, m, f) = first_claimable_sound t run (rw skip at h) in (c, inr m, (λ e. cc, f))
  | inl take ↦
      let rest = first_claimable-Found r t take in
      let e : rest.run ≡ run = ground (arith, rest.is) in
      (
        subst (λ x. is_claimable x.status ≡ true) e rest.claimable,
        subst (λ x. (x ≡ r) ⊎ Has x t) e rest.member,
        (λ _. subst (λ x. NotAfter x r) e rest.not_after, subst (λ x. FirstOf x t) e rest.first),
      )
]

-- The run that the queue hands out is a claimable row of the table, and no claimable run has a higher priority, or
-- the same priority and an earlier creation time.
pub next_claimable_run_first :
    (t : Runs) (run : TrainingRun)
    → next_claimable_run t ≡ some run
    → (is_claimable run.status ≡ true) × Has run t × FirstOf run t
unfolding next_claimable_run
next_claimable_run_first t run h = first_claimable_sound t run h

first_claimable-some : (best : TrainingRun) (t : Runs) → first_claimable (some best) t ≢ none
unfolding first_claimable
first_claimable-some best [] h = cc
first_claimable-some best (r ∷ t) h =
    ground (arith, first_claimable-some best t, first_claimable-some r t)

-- The queue is empty only if no run is claimable.
pub next_claimable_run-none :
    (t : Runs) → next_claimable_run t ≡ none → any (λ r. is_claimable r.status) t ≡ false
unfolding next_claimable_run
next_claimable_run-none [] h = refl
next_claimable_run-none (r ∷ t) h =
    ground (arith, next_claimable_run-none t, first_claimable-some r t)
