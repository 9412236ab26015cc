-- ===== src/Registry/Lifecycle/Allocation.antt =====
-- Version numbers are not given twice, and are given as soon as one attempt is undisturbed.
use defnex_mlops.Base.{
  ℕ, List, ◌<◌, ◌≡◌, false, is_some, some, ◌++◌, arith, none, ◌∷◌, [], true, ◌+◌, Bool-cases, refl,
  ◌||◌, inl, inr, count, ◌≤◌, ◌==◌, ◌&&◌, if◌then◌else◌, leb, ltb,
}
use defnex_mlops.Registry.{ModelVersion, Versions, get_model_version, registered}
use defnex_mlops.Registry.Lifecycle.{Attempt, allocate_version, latest, new_row}
use mathlib.Core.Path.{subst}

-- Above the highest version of its model there is no row.
get_model_version-latest :
    (m v : ℕ) (t : Versions) → latest m t < v → get_model_version m v t ≡ none
get_model_version-latest m v [] h = refl
get_model_version-latest m v (r ∷ t) h = ground (arith, get_model_version-latest m v t)

-- The rows of a model under a version number.
abbrev pub holders : ℕ → ℕ → Versions → ℕ
holders m v t = count (λ r. (r.model_id == m) && (r.version == v)) t

-- The versions of every model are numbered 1, 2, 3 and so on, without a gap, and each number is given
-- to one row.
abbrev pub IsNumbered : Versions → Type 0
IsNumbered t = (m v : ℕ) → holders m v t ≡ (if leb 1 v && leb v (latest m t) then 1 else 0)

-- What other registrations may do to a table that is numbered: it stays so, and no number is given
-- back.
abbrev pub IsOrderly : (Versions → Versions) → Type 0
IsOrderly rival =
    (t : Versions)
    → IsNumbered t
    → IsNumbered (rival t) × ((m : ℕ) → latest m t ≤ latest m (rival t))

abbrev pub AllOrderly : List Attempt → Type 0
AllOrderly [] = Unit
AllOrderly (a ∷ attempts) = IsOrderly a.rival × AllOrderly attempts

pub latest-append :
    (m : ℕ) (t : Versions) (r : ModelVersion)
    → latest m (t ++ r ∷ []) ≡ (
        if r.model_id == m
        then (if ltb (latest m t) r.version then r.version else latest m t)
        else latest m t)
latest-append m [] r = ground arith
latest-append m (x ∷ t) r = ground (arith, latest-append m t r)

holders-append :
    (m v : ℕ) (t : Versions) (r : ModelVersion)
    → holders m v (t ++ r ∷ [])
      ≡ holders m v t + (if (r.model_id == m) && (r.version == v) then 1 else 0)
holders-append m v [] r = ground arith
holders-append m v (x ∷ t) r = ground (arith, holders-append m v t r)

get_model_version-holders :
    (m v : ℕ) (t : Versions) → get_model_version m v t ≡ none → holders m v t ≡ 0
get_model_version-holders m v [] h = refl
get_model_version-holders m v (r ∷ t) h = ground (arith, get_model_version-holders m v t)

-- Of a table that is numbered, a number above one that was given, and itself not given, is the next.
next_number :
    (m n : ℕ) (t : Versions)
    → IsNumbered t
    → n ≤ latest m t
    → get_model_version m (n + 1) t ≡ none
    → n ≡ latest m t
next_number m n t numbered above free =
    let nobody = get_model_version-holders m (n + 1) t free in
    let given = numbered m (n + 1) in ground arith

pub IsNumbered-append :
    (t : Versions) (r : ModelVersion)
    → IsNumbered t
    → r.version ≡ latest r.model_id t + 1
    → IsNumbered (t ++ r ∷ [])
IsNumbered-append t r numbered e m v =
    let before = numbered m v in
    let rows = holders-append m v t r in
    let top = latest-append m t r in
    elim (Bool-cases (r.model_id == m)) [
      | inl own ↦
          let same : r.model_id ≡ m = ground arith in
          let next = subst (λ x. r.version ≡ latest x t + 1) same e in
          rw (rows, top, before) (ground arith)
      | inr other ↦ rw (rows, top, before) (ground arith)
    ]

-- How an allocation that succeeded left the table: the new row stands behind rows of which none
-- has its model and version.
pub record Allocated (template r : ModelVersion) (t' : Versions) : Type 0 where
  pub before : Versions
  pub appended : t' ≡ before ++ r ∷ []
  pub number_free : get_model_version r.model_id r.version before ≡ none
  pub of_template :
      (r.model_id ≡ template.model_id) × (r.training_run_id ≡ template.training_run_id)
  pub is_new : r.status ≡ registered

-- Whatever other registrations commit during the attempts, an allocation that returns a version has
-- inserted a REGISTERED row under a number that no other row of the model has.
pub allocate_version-Allocated :
    (template : ModelVersion) (attempts : List Attempt) (t : Versions) (r : ModelVersion)
    → (allocate_version template attempts t).0 ≡ some r
    → Allocated template r (allocate_version template attempts t).1
unfolding allocate_version
allocate_version-Allocated template [] t r h = ground arith
allocate_version-Allocated template (a ∷ attempts) t r h =
    let v = latest template.model_id t + 1 in
    let now = a.rival t in
    let row = new_row template a.key v in
    elim (Bool-cases (a.is_locked || is_some (get_model_version template.model_id v now))) [
      | inl fails ↦ rw fails (allocate_version-Allocated template attempts now r (rw fails at h))
      | inr free ↦
          let e : row ≡ r = ground arith in
          rw free (
            subst (λ x. Allocated template x (now ++ row ∷ [])) e
              (record {
                before = now;
                appended = refl;
                number_free = ground arith;
                of_template = (refl, refl);
                is_new = refl;
              }))
    ]

-- How an allocation that succeeded left the table: a REGISTERED row of the run stands behind the
-- others, under the number that is next for its model.
pub record Registered (template r : ModelVersion) (t' : Versions) : Type 0 where
  pub before : Versions
  pub appended : t' ≡ before ++ r ∷ []
  pub next : r.version ≡ latest r.model_id before + 1
  pub numbered : IsNumbered t'
  pub of_template :
      (r.model_id ≡ template.model_id) × (r.training_run_id ≡ template.training_run_id)
  pub is_new : r.status ≡ registered

-- In a table whose models have their versions numbered without a gap, and beside other registrations
-- that keep it so, an allocation that returns a version has inserted a REGISTERED row of the run under
-- the next number of its model, and every number of every model is still given once and without a gap.
pub allocate_version-IsNumbered :
    (template : ModelVersion) (attempts : List Attempt) (t : Versions) (r : ModelVersion)
    → AllOrderly attempts
    → IsNumbered t
    → (allocate_version template attempts t).0 ≡ some r
    → Registered template r (allocate_version template attempts t).1
unfolding allocate_version
allocate_version-IsNumbered template [] t r o n h = ground arith
allocate_version-IsNumbered template (a ∷ attempts) t r o n h =
    let m = template.model_id in
    let now = a.rival t in
    let (still, up) = o.0 t n in
    elim (Bool-cases (a.is_locked || is_some (get_model_version m (latest m t + 1) now))) [
      | inl fails ↦
          rw fails (allocate_version-IsNumbered template attempts now r o.1 still (rw fails at h))
      | inr free ↦
          let row = new_row template a.key (latest m t + 1) in
          let e : row ≡ r = ground arith in
          let same = next_number m (latest m t) now still (up m) (ground arith) in
          let next : row.version ≡ latest m now + 1 = rw (← same) refl in
          rw free (
            subst (λ x. Registered template x (now ++ row ∷ [])) e
              (record {
                before = now;
                appended = refl;
                next = next;
                numbered = IsNumbered-append now row still next;
                of_template = (refl, refl);
                is_new = refl;
              }))
    ]

-- An attempt that nobody disturbs.
pub record IsCalm (a : Attempt) : Type 0 where
  pub is_open : a.is_locked ≡ false
  pub is_alone : (t : Versions) → a.rival t ≡ t

-- If one of the attempts is undisturbed, a version is allocated.
pub allocate_version_total :
    (template : ModelVersion) (before after : List Attempt) (a : Attempt) (t : Versions)
    → IsCalm a
    → is_some (allocate_version template (before ++ a ∷ after) t).0 ≡ true
unfolding allocate_version
allocate_version_total template [] after a t c =
    let v = latest template.model_id t + 1 in
    let free = get_model_version-latest template.model_id v t (omega arith) in
    let still = c.is_alone t in rw (still, c.is_open, free) refl
allocate_version_total template (b ∷ before) after a t c =
    let rest = allocate_version_total template before after a (b.rival t) c in
    elim (Bool-cases (
      b.is_locked
      || is_some
          (get_model_version template.model_id (latest template.model_id t + 1) (b.rival t)))) [
            | inl e ↦ rw e rest
            | inr e ↦ rw e refl
          ]
