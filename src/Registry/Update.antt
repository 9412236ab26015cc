-- ===== src/Registry/Update.antt =====
-- Laws of updates of one row by its key.
use defnex_mlops.Base.{ℕ, ◌≡◌, true, ◌≢◌, some, ◌∷◌, arith, [], refl}
use defnex_mlops.Registry.{
  ModelVersion, Status, Versions, is_deployed, count_deployed, find, set_status, deployed, update,
}
use defnex_mlops.Registry.Lookup.{IsValid, Keyed}

-- An update that keeps the key, the model and the status.
pub record KeepsPointer (f : ModelVersion → ModelVersion) : Type 0 where
  pub keeps_id : (r : ModelVersion) → (f r).id ≡ r.id
  pub keeps_model : (r : ModelVersion) → (f r).model_id ≡ r.model_id
  pub keeps_status : (r : ModelVersion) → (f r).status ≡ r.status

pub find-update_self :
    (k : ℕ) (f : ModelVersion → ModelVersion) (t : Versions) (r : ModelVersion)
    → ((x : ModelVersion) → (f x).id ≡ x.id)
    → find k t ≡ some r
    → find k (update k f t) ≡ some (f r)
find-update_self k f [] r i h = cc
find-update_self k f (x ∷ t) r i h = ground (arith, i x, find-update_self k f t r i)

pub find-update_ne :
    (k j : ℕ) (f : ModelVersion → ModelVersion) (t : Versions)
    → ((x : ModelVersion) → (f x).id ≡ x.id)
    → k ≢ j
    → find k (update j f t) ≡ find k t
find-update_ne k j f [] i h = refl
find-update_ne k j f (x ∷ t) i h = ground (arith, i x, find-update_ne k j f t i)

pub update-Keyed :
    (k : ℕ) (f : ModelVersion → ModelVersion) (t : Versions)
    → ((x : ModelVersion) → (f x).id ≡ x.id)
    → Keyed t
    → Keyed (update k f t)
update-Keyed k f [] i h = tt
update-Keyed k f (x ∷ t) i h =
    ground (arith, i x, update-Keyed k f t i h.1, find-update_ne x.id k f t i)

count_deployed-update :
    (m k : ℕ) (f : ModelVersion → ModelVersion) (t : Versions)
    → KeepsPointer f
    → count_deployed m (update k f t) ≡ count_deployed m t
count_deployed-update m k f [] h = refl
count_deployed-update m k f (x ∷ t) h =
    ground (arith, h.keeps_model x, h.keeps_status x, count_deployed-update m k f t h)

-- Such an update keeps the table valid.
pub update-IsValid :
    (k : ℕ) (f : ModelVersion → ModelVersion) (t : Versions)
    → KeepsPointer f
    → IsValid t
    → IsValid (update k f t)
update-IsValid k f t h v = record {
  keyed = update-Keyed k f t h.keeps_id v.keyed;
  one_deployed = λ m. rw (count_deployed-update m k f t h) (v.one_deployed m);
}

-- The last of two status changes of a row counts.
pub set_status-set_status :
    (k : ℕ) (a b : Status) (t : Versions) → set_status k a (set_status k b t) ≡ set_status k a t
set_status-set_status k a b [] = refl
set_status-set_status k a b (x ∷ t) = ground (arith, set_status-set_status k a b t)

-- Status changes of two rows commute.
pub set_status_comm :
    (k j : ℕ) (a b : Status) (t : Versions)
    → k ≢ j
    → set_status k a (set_status j b t) ≡ set_status j b (set_status k a t)
set_status_comm k j a b [] h = refl
set_status_comm k j a b (x ∷ t) h = ground (arith, set_status_comm k j a b t h)

-- A row that is given the status that it has stays as it is.
pub set_status_same :
    (k : ℕ) (t : Versions) (r : ModelVersion) → find k t ≡ some r → set_status k r.status t ≡ t
set_status_same k [] r h = cc
set_status_same k (x ∷ t) r h = ground (arith, set_status_same k t r)

pub deployed_of : (s : Status) → is_deployed s ≡ true → s ≡ deployed
unfolding is_deployed
deployed_of s h = ground arith
