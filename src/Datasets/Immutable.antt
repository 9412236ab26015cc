-- ===== src/Datasets/Immutable.antt =====
-- A PROCESSED version is final for the dataset service: no sequence of its inserts, updates and
-- deletions changes or removes its row.
use defnex_mlops.Base.{
  ℕ, true, false, List, [], ◌∷◌, ◌++◌, ◌+◌, ◌≡◌, ◌≢◌, ◌||◌, arith, some, inl, inr, refl, sym, ◌∙◌,
  Bool-cases, is_some, some_injective,
}
use mathlib.Core.Path.{subst}
use defnex_mlops.Datasets.{
  DatasetVersion, DatasetTables, processed, InsertAttempt, insert_version, register_dataset,
  find_version, update_version, delete_version, get_dataset_version, latest_version, numbered,
  is_immutable, update_dataset_version, delete_dataset_version,
}

find_version-append :
    (k : ℕ) (t : List DatasetVersion) (r x : DatasetVersion)
    → find_version k t ≡ some r
    → find_version k (t ++ x ∷ []) ≡ some r
find_version-append k [] r x h = cc
find_version-append k (y ∷ t) r x h = ground (arith, find_version-append k t r x)

find_version-update_ne :
    (k j : ℕ) (f : DatasetVersion → DatasetVersion) (t : List DatasetVersion)
    → ((x : DatasetVersion) → (f x).id ≡ x.id)
    → k ≢ j
    → find_version k (update_version j f t) ≡ find_version k t
find_version-update_ne k j f [] i h = refl
find_version-update_ne k j f (x ∷ t) i h = ground (arith, i x, find_version-update_ne k j f t i h)

find_version-delete_ne :
    (k j : ℕ) (t : List DatasetVersion)
    → k ≢ j
    → find_version k (delete_version j t) ≡ find_version k t
find_version-delete_ne k j [] h = refl
find_version-delete_ne k j (x ∷ t) h = ground (arith, find_version-delete_ne k j t h)

-- The row of every PROCESSED version stays as it is.
abbrev pub KeepsProcessed : DatasetTables → DatasetTables → Type 0
KeepsProcessed w w' =
    (k : ℕ) (r : DatasetVersion)
    → find_version k w.dataset_versions ≡ some r
    → r.status ≡ processed
    → find_version k w'.dataset_versions ≡ some r

-- Whatever other transactions commit during the attempts keeps the PROCESSED rows too.
abbrev pub AllKeep : List InsertAttempt → Type 0
AllKeep [] = Unit
AllKeep (a ∷ attempts) = ((w : DatasetTables) → KeepsProcessed w (a.rival w)) × AllKeep attempts

-- What one call of the dataset service does to the tables: an insert, or one of the guarded helpers for
-- updates and deletions. The commit of an intake, which writes to the row itself, is none of them. An update or a deletion has loaded the row that is stored.
pub data Step (w w' : DatasetTables) : Type 0 where
  inserts :
      (template : DatasetVersion) (attempts : List InsertAttempt)
      → AllKeep attempts
      → w' ≡ (insert_version template attempts w).1
      → Step w w'
  updates :
      (r : DatasetVersion) (f : DatasetVersion → DatasetVersion)
      → find_version r.id w.dataset_versions ≡ some r
      → ((x : DatasetVersion) → (f x).id ≡ x.id)
      → w' ≡ (update_dataset_version r f w).1
      → Step w w'
  deletes :
      (r : DatasetVersion)
      → find_version r.id w.dataset_versions ≡ some r
      → w' ≡ (delete_dataset_version r w).1
      → Step w w'

pub data Reach (w : DatasetTables) : DatasetTables → Type 0 where
  start : Reach w w
  next : (w' w'' : DatasetTables) → Reach w w' → Step w' w'' → Reach w w''

pub versions-register_dataset :
    (k : ℕ) (w : DatasetTables) → (register_dataset k w).dataset_versions ≡ w.dataset_versions
unfolding register_dataset
versions-register_dataset k w = ground arith

insert_version-Keeps :
    (template : DatasetVersion) (attempts : List InsertAttempt) (w : DatasetTables)
    → AllKeep attempts
    → KeepsProcessed w (insert_version template attempts w).1
unfolding insert_version
insert_version-Keeps template [] w alone k r h p = h
insert_version-Keeps template (a ∷ attempts) w alone k r h p =
    let v = latest_version template.dataset_id w.dataset_versions + 1 in
    let row = numbered template a.key v in
    let now = a.rival w in
    let kept = alone.0 w k r h p in
    elim (Bool-cases (
      a.is_locked
      || (is_some (get_dataset_version template.dataset_id v now.dataset_versions)
          || is_some (find_version a.key now.dataset_versions)))) [
            | inl e ↦ rw e (insert_version-Keeps template attempts now alone.1 k r kept p)
            | inr e ↦
                let there = versions-register_dataset template.dataset_id now in
                rw e (
                  find_version-append k (register_dataset template.dataset_id now).dataset_versions
                    r row (subst (λ l. find_version k l ≡ some r) (sym there) kept))
          ]

mutable_ne :
    (k : ℕ) (r x : DatasetVersion) (t : List DatasetVersion)
    → find_version k t ≡ some r
    → r.status ≡ processed
    → find_version x.id t ≡ some x
    → is_immutable x.status ≡ false
    → k ≢ x.id
unfolding is_immutable
mutable_ne k r x t h p f m e =
    let there = subst (λ i. find_version i t ≡ some r) e h in
    let same : r ≡ x = some_injective r x (sym there ∙ f) in
    let final = subst (λ y. y.status ≡ processed) same p in
    let immutable : is_immutable x.status ≡ true = rw final refl in cc

update-Keeps :
    (x : DatasetVersion) (f : DatasetVersion → DatasetVersion) (w : DatasetTables)
    → find_version x.id w.dataset_versions ≡ some x
    → ((y : DatasetVersion) → (f y).id ≡ y.id)
    → KeepsProcessed w (update_dataset_version x f w).1
unfolding update_dataset_version
update-Keeps x f w s i k r h p = elim (Bool-cases (is_immutable x.status)) [
  | inl e ↦ rw e h
  | inr e ↦
      let other = mutable_ne k r x w.dataset_versions h p s e in
      rw e (find_version-update_ne k x.id f w.dataset_versions i other ∙ h)
]

delete-Keeps :
    (x : DatasetVersion) (w : DatasetTables)
    → find_version x.id w.dataset_versions ≡ some x
    → KeepsProcessed w (delete_dataset_version x w).1
unfolding delete_dataset_version
delete-Keeps x w s k r h p = elim (Bool-cases (is_immutable x.status)) [
  | inl e ↦ rw e h
  | inr e ↦
      let other = mutable_ne k r x w.dataset_versions h p s e in
      rw e (find_version-delete_ne k x.id w.dataset_versions other ∙ h)
]

Step-Keeps : (w w' : DatasetTables) → Step w w' → KeepsProcessed w w'
Step-Keeps w w' (inserts template attempts alone e) k r h p =
    subst (λ x. find_version k x.dataset_versions ≡ some r) (sym e)
      (insert_version-Keeps template attempts w alone k r h p)
Step-Keeps w w' (updates x f s i e) k r h p =
    subst (λ y. find_version k y.dataset_versions ≡ some r) (sym e) (update-Keeps x f w s i k r h p)
Step-Keeps w w' (deletes x s e) k r h p =
    subst (λ y. find_version k y.dataset_versions ≡ some r) (sym e) (delete-Keeps x w s k r h p)

-- Whatever sequence of the service's inserts and of its guarded updates and deletions follows, each on
-- the row as it is stored, the row of a PROCESSED version stays as it is, if what other transactions
-- commit during the attempts of an insert keeps such rows too. A commit of an intake is none of these
-- steps.
pub Reach-KeepsProcessed : (w w' : DatasetTables) → Reach w w' → KeepsProcessed w w'
Reach-KeepsProcessed w w' start k r h p = h
Reach-KeepsProcessed w x (next w' w'' steps last) k r h p =
    Step-Keeps w' w'' last k r (Reach-KeepsProcessed w w' steps k r h p) p
