-- ===== src/EvalSets/Versions.antt =====
-- The versions of a golden set, and the texts that two lists share.
use defnex_mlops.Base.{
  ℕ, List, [], ◌∷◌, ◌++◌, ◌==◌, ◌≡◌, ◌<◌, ◌≤◌, arith, none, some, true, false, refl, inl, inr,
  Bool-cases, Option-cases,
}
use defnex_mlops.Text.{Text}
use defnex_mlops.Validation.Report.{seen_text}
use defnex_mlops.EvalSets.{
  EvalSetVersion, get_eval_set_version, get_latest_eval_set_version, next_version,
}

-- The next version is above every row of the set.
next_version-above :
    (k : ℕ) (r : EvalSetVersion) (t : List EvalSetVersion)
    → (next_version k t ≤ next_version k (r ∷ t))
      × ((r.eval_set_id == k) ≡ true → r.version < next_version k (r ∷ t))
unfolding get_latest_eval_set_version next_version
next_version-above k r t = elim (Option-cases (get_latest_eval_set_version k t)) [
  | inl e ↦ rw (e, next_version) (ground arith, λ h. ground arith)
  | inr (q, e) ↦ rw (e, next_version) (ground arith, λ h. ground arith)
]

-- Above the latest version of its set there is no row.
pub get_eval_set_version-next :
    (k v : ℕ) (t : List EvalSetVersion) → next_version k t ≤ v → get_eval_set_version k v t ≡ none
unfolding get_eval_set_version
get_eval_set_version-next k v [] h = refl
get_eval_set_version-next k v (r ∷ t) h =
    let (above, own) = next_version-above k r t in
    let rest = get_eval_set_version-next k v t (omega (arith, above, h)) in
    elim (Bool-cases (r.eval_set_id == k)) [
      | inl e ↦ let lt = own e in ground arith
      | inr e ↦ rw e rest
    ]

pub seen_text-append :
    (s : Text) (a b : List Text)
    → seen_text s (a ++ b) ≡ false
    → (seen_text s a ≡ false) × (seen_text s b ≡ false)
unfolding seen_text
seen_text-append s [] b h = (refl, h)
seen_text-append s (t ∷ a) b h =
    let rest = seen_text-append s a b (ground arith) in (ground arith, rest.1)

pub append-seen_text :
    (s : Text) (a b : List Text)
    → seen_text s a ≡ false
    → seen_text s b ≡ false
    → seen_text s (a ++ b) ≡ false
unfolding seen_text
append-seen_text s [] b h k = k
append-seen_text s (t ∷ a) b h k =
    let rest = append-seen_text s a b (ground arith) k in ground arith

-- The row that is appended above the latest version is the latest.
pub get_latest_eval_set_version-append :
    (k : ℕ) (row : EvalSetVersion) (t : List EvalSetVersion)
    → row.eval_set_id ≡ k
    → next_version k t ≤ row.version
    → get_latest_eval_set_version k (t ++ row ∷ []) ≡ some row
unfolding get_latest_eval_set_version next_version
get_latest_eval_set_version-append k row [] e h = ground arith
get_latest_eval_set_version-append k row (r ∷ t) e h =
    let (above, own) = next_version-above k r t in
    let rest = get_latest_eval_set_version-append k row t e (omega (arith, above, h)) in
    elim (Bool-cases (r.eval_set_id == k)) [
      | inl f ↦ let lt = own f in rw (rest, f) (ground arith)
      | inr f ↦ rw (rest, f) refl
    ]

pub get_eval_set_version-append :
    (k : ℕ) (row : EvalSetVersion) (t : List EvalSetVersion)
    → row.eval_set_id ≡ k
    → get_eval_set_version k row.version t ≡ none
    → get_eval_set_version k row.version (t ++ row ∷ []) ≡ some row
unfolding get_eval_set_version
get_eval_set_version-append k row [] e h = ground arith
get_eval_set_version-append k row (r ∷ t) e h =
    ground (arith, get_eval_set_version-append k row t e)

-- The two lists share no text.
abbrev pub NoCommon : List Text → List Text → Type 0
NoCommon a b = (s : Text) → seen_text s a ≡ true → seen_text s b ≡ false

pub NoCommon-sym : (a b : List Text) → NoCommon a b → NoCommon b a
NoCommon-sym a b h s seen = elim (Bool-cases (seen_text s a)) [
  | inl e ↦ let unseen = h s e in ground arith
  | inr e ↦ e
]
