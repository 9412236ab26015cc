-- ===== src/Registry/Lookup.antt =====
-- How the queries of the registry see a change of one row's status.
use defnex_mlops.Base.{
  ℕ, ◌+◌, ◌≤◌, ◌≡◌, ◌≢◌, refl, ◌&&◌, none, some, [], ◌∷◌, arith, ◌==◌, if◌then◌else◌, true, false,
}
use defnex_mlops.Registry.{
  Status, ModelVersion, Versions, is_deployed, find, with_status, set_status, count_deployed,
  other_deployed, deployed_model_version,
}

-- Primary keys are unique.
abbrev pub Keyed : Versions → Type 0
Keyed [] = Unit
Keyed (r ∷ t) = (find r.id t ≡ none) × Keyed t

-- What the database guarantees of the table: keys, and the partial unique index.
pub record IsValid (t : Versions) : Type 0 where
  pub keyed : Keyed t
  pub one_deployed : (m : ℕ) → count_deployed m t ≤ 1

pub find-set_status_self :
    (k : ℕ) (s : Status) (t : Versions) (r : ModelVersion)
    → find k t ≡ some r
    → find k (set_status k s t) ≡ some (with_status s r)
find-set_status_self k s [] r h = cc
find-set_status_self k s (x ∷ t) r h = ground (arith, find-set_status_self k s t r)

pub find-set_status_ne :
    (k j : ℕ) (s : Status) (t : Versions) → k ≢ j → find k (set_status j s t) ≡ find k t
find-set_status_ne k j s [] h = refl
find-set_status_ne k j s (x ∷ t) h = ground (arith, find-set_status_ne k j s t)

pub set_status-Keyed : (k : ℕ) (s : Status) (t : Versions) → Keyed t → Keyed (set_status k s t)
set_status-Keyed k s [] h = tt
set_status-Keyed k s (x ∷ t) h =
    ground (arith, set_status-Keyed k s t h.1, find-set_status_ne x.id k s t)

abbrev pub holds : ℕ → ModelVersion → ℕ
holds m r = if r.model_id == m && is_deployed r.status then 1 else 0

-- A status change moves the count by what the row held before and holds now.
pub count_deployed-set_status :
    (m k : ℕ) (s : Status) (t : Versions) (r : ModelVersion)
    → find k t ≡ some r
    → count_deployed m (set_status k s t) + holds m r
      ≡ count_deployed m t + holds m (with_status s r)
count_deployed-set_status m k s [] r h = cc
count_deployed-set_status m k s (x ∷ t) r h = ground (arith, count_deployed-set_status m k s t r)

-- What the query for `previous` returns is a row of the table, of this model, DEPLOYED, and not
-- the row that is deployed.
pub record IsPrevious (m k : ℕ) (t : Versions) (p : ModelVersion) : Type 0 where
  pub stored : find p.id t ≡ some p
  pub same_model : p.model_id ≡ m
  pub live : is_deployed p.status ≡ true
  pub other : p.id ≢ k

pub other_deployed_sound :
    (m k : ℕ) (t : Versions) (p : ModelVersion)
    → Keyed t
    → other_deployed m k t ≡ some p
    → IsPrevious m k t p
other_deployed_sound m k [] p h e = cc
other_deployed_sound m k (x ∷ t) p h e = ground (arith, other_deployed_sound m k t p h.1)

other_deployed-none_absent :
    (m k : ℕ) (t : Versions)
    → other_deployed m k t ≡ none
    → find k t ≡ none
    → count_deployed m t ≡ 0
other_deployed-none_absent m k [] e h = refl
other_deployed-none_absent m k (x ∷ t) e h = ground (arith, other_deployed-none_absent m k t)

-- Without another DEPLOYED row, only the row itself can hold the pointer.
pub other_deployed-none :
    (m k : ℕ) (t : Versions) (r : ModelVersion)
    → Keyed t
    → other_deployed m k t ≡ none
    → find k t ≡ some r
    → count_deployed m t ≡ holds m r
other_deployed-none m k [] r h e f = cc
other_deployed-none m k (x ∷ t) r h e f =
    ground (arith, other_deployed-none m k t r h.1, other_deployed-none_absent m k t)

count_deployed_zero :
    (m k : ℕ) (t : Versions) (r : ModelVersion)
    → count_deployed m t ≡ 0
    → find k t ≡ some r
    → r.model_id ≡ m
    → is_deployed r.status ≡ false
count_deployed_zero m k [] r z f e = cc
count_deployed_zero m k (x ∷ t) r z f e = ground (arith, count_deployed_zero m k t r)

-- Where one row at most is DEPLOYED, the query for it returns the row that is.
pub deployed_model_version_unique :
    (m k : ℕ) (t : Versions) (r : ModelVersion)
    → count_deployed m t ≤ 1
    → find k t ≡ some r
    → r.model_id ≡ m
    → is_deployed r.status ≡ true
    → deployed_model_version m t ≡ some r
deployed_model_version_unique m k [] r c f e h = cc
deployed_model_version_unique m k (x ∷ t) r c f e h =
    ground (arith, deployed_model_version_unique m k t r, count_deployed_zero m k t r)

-- What the query for the DEPLOYED row returns.
pub deployed_model_version_sound :
    (m : ℕ) (t : Versions) (r : ModelVersion)
    → deployed_model_version m t ≡ some r
    → (r.model_id ≡ m) × (is_deployed r.status ≡ true)
deployed_model_version_sound m [] r h = cc
deployed_model_version_sound m (x ∷ t) r h = ground (arith, deployed_model_version_sound m t r)
