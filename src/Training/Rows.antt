-- ===== src/Training/Rows.antt =====
-- How a lookup sees the update of one run, and the bulk update.
use defnex_mlops.Base.{
  ℕ, Bool, ◌≡◌, none, some, ◌≢◌, if◌then◌else◌, ◌∷◌, arith, Bool-cases, [], inl, refl, inr,
}
use defnex_mlops.Training.{TrainingRun, Runs, get_run, mark_each, update_run, mark_stale}

pub get_run-update_run_self :
    (k : ℕ) (f : TrainingRun → TrainingRun) (t : Runs) (r : TrainingRun)
    → ((x : TrainingRun) → (f x).training_run_id ≡ x.training_run_id)
    → get_run k t ≡ some r
    → get_run k (update_run k f t) ≡ some (f r)
get_run-update_run_self k f [] r i h = cc
get_run-update_run_self k f (x ∷ t) r i h = ground (arith, i x, get_run-update_run_self k f t r i)

pub get_run-update_run-none :
    (k : ℕ) (f : TrainingRun → TrainingRun) (t : Runs)
    → get_run k t ≡ none
    → get_run k (update_run k f t) ≡ none
get_run-update_run-none k f [] h = refl
get_run-update_run-none k f (x ∷ t) h = ground (arith, get_run-update_run-none k f t)

pub get_run-update_run_ne :
    (k j : ℕ) (f : TrainingRun → TrainingRun) (t : Runs)
    → ((x : TrainingRun) → (f x).training_run_id ≡ x.training_run_id)
    → k ≢ j
    → get_run k (update_run j f t) ≡ get_run k t
get_run-update_run_ne k j f [] i h = refl
get_run-update_run_ne k j f (x ∷ t) i h = ground (arith, i x, get_run-update_run_ne k j f t i h)

pub get_run-mark_each :
    (k : ℕ) (p : TrainingRun → Bool) (t : Runs) (r : TrainingRun)
    → get_run k t ≡ some r
    → get_run k (mark_each p t) ≡ some (if p r then mark_stale r else r)
get_run-mark_each k p [] r h = cc
get_run-mark_each k p (x ∷ t) r h = elim (Bool-cases (p x)) [
  | inl e ↦ rw e (ground (arith, get_run-mark_each k p t r))
  | inr e ↦ rw e (ground (arith, get_run-mark_each k p t r))
]
