-- ===== src/Validation/Duplicates.antt =====
-- What the duplicate and the leakage checks say of the records: `mark_duplicates` and `mark_leaks`
-- against an independent description of a dataset that may be trained on.
use defnex_mlops.Base.{
  [], ◌∷◌, List, ◌≡◌, false, some, true, ◌≢◌, Bool-cases, Option-cases, arith, ◌⊎◌, inl, refl, inr,
  ◌∙◌, ap, sym,
}
use defnex_mlops.Json.{Json}
use defnex_mlops.Validation.{Patterns}
use defnex_mlops.Validation.Report.{
  Pair, is_repeated, remember, same_pair, normalized_pair, seen_pair, leaks,
}
use defnex_mlops.Text.{Text, same_text, same_text_refl, same_text_eq}

same_pair_refl : (x : Pair) → same_pair x x ≡ true
unfolding same_pair
same_pair_refl (u, a) = rw (same_text_refl u, same_text_refl a) refl

same_pair_eq : (x y : Pair) → same_pair x y ≡ true → x ≡ y
unfolding same_pair
same_pair_eq (u, a) (u', a') h =
    let first : same_text u u' ≡ true = ground arith in
    let second : same_text a a' ≡ true = ground arith in
    rw (same_text_eq u u' first, same_text_eq a a' second) refl

module _ (p : Patterns) where
  -- No record of the list has this pair.
  abbrev pub Nowhere : Pair → List Json → Type 0
  Nowhere x [] = Unit
  Nowhere x (v ∷ vs) = (normalized_pair p v ≢ some x) × Nowhere x vs

  -- No two records have the same normalized pair of texts.
  abbrev pub Distinct : List Json → Type 0
  Distinct [] = Unit
  Distinct (v ∷ vs) = ((x : Pair) → normalized_pair p v ≡ some x → Nowhere x vs) × Distinct vs

  -- No record asks what a record of the eval set asks.
  abbrev pub Disjoint : List Text → List Json → Type 0
  Disjoint evals [] = Unit
  Disjoint evals (v ∷ vs) = (leaks p evals v ≡ false) × Disjoint evals vs

  -- The scan over the records, with the pairs seen before, finds no repetition.
  abbrev pub Unrepeated : List Pair → List Json → Type 0
  Unrepeated seen [] = Unit
  Unrepeated seen (v ∷ vs) = (is_repeated p seen v ≡ false) × Unrepeated (remember p seen v) vs

  remember_keeps :
      (x : Pair) (seen : List Pair) (v : Json)
      → seen_pair x seen ≡ true
      → seen_pair x (remember p seen v) ≡ true
  unfolding remember seen_pair
  remember_keeps x seen v h = elim (Option-cases (normalized_pair p v)) [
    | inl e ↦ rw (e, remember) h
    | inr (y, e) ↦ elim (Bool-cases (seen_pair y seen)) [
      | inl s ↦ rw (e, s, remember) h
      | inr s ↦ rw (e, s, remember) (ground arith)
    ]
  ]

  repeated_is :
      (x : Pair) (seen : List Pair) (v : Json)
      → seen_pair x seen ≡ true
      → is_repeated p seen v ≡ false
      → normalized_pair p v ≢ some x
  unfolding is_repeated
  repeated_is x seen v h r e = let r' = rw (e, is_repeated) at r in ground arith

  Unrepeated-Nowhere :
      (x : Pair) (seen : List Pair) (vs : List Json)
      → seen_pair x seen ≡ true
      → Unrepeated seen vs
      → Nowhere x vs
  Unrepeated-Nowhere x seen [] h u = tt
  Unrepeated-Nowhere x seen (v ∷ vs) h u = (
    repeated_is x seen v h u.0,
    Unrepeated-Nowhere x (remember p seen v) vs (remember_keeps x seen v h) u.1,
  )

  remembered :
      (x : Pair) (seen : List Pair) (v : Json)
      → normalized_pair p v ≡ some x
      → seen_pair x (remember p seen v) ≡ true
  unfolding remember seen_pair
  remembered x seen v e = elim (Bool-cases (seen_pair x seen)) [
    | inl s ↦ rw (e, s, remember) s
    | inr s ↦ rw (e, s, remember) (rw (same_pair_refl x) refl)
  ]

  pub Unrepeated-Distinct : (seen : List Pair) (vs : List Json) → Unrepeated seen vs → Distinct vs
  Unrepeated-Distinct seen [] u = tt
  Unrepeated-Distinct seen (v ∷ vs) u = (
    λ x e. Unrepeated-Nowhere x (remember p seen v) vs (remembered x seen v e) u.1,
    Unrepeated-Distinct (remember p seen v) vs u.1,
  )

  -- What was remembered was seen before, or is the pair of the record.
  remember_only :
      (x : Pair) (seen : List Pair) (v : Json)
      → seen_pair x (remember p seen v) ≡ true
      → (seen_pair x seen ≡ true) ⊎ (normalized_pair p v ≡ some x)
  unfolding remember seen_pair
  remember_only x seen v h = elim (Option-cases (normalized_pair p v)) [
    | inl e ↦ inl (rw (e, remember) at h)
    | inr (y, e) ↦ elim (Bool-cases (seen_pair y seen)) [
      | inl s ↦ inl (rw (e, s, remember) at h)
      | inr s ↦
          let h' = rw (e, s, remember) at h in
          elim (Bool-cases (same_pair x y)) [
            | inl same ↦ inr (e ∙ ap some (sym (same_pair_eq x y same)))
            | inr other ↦ inl (rw other at h')
          ]
    ]
  ]

  pub Distinct-Unrepeated :
      (seen : List Pair) (vs : List Json)
      → ((x : Pair) → seen_pair x seen ≡ true → Nowhere x vs)
      → Distinct vs
      → Unrepeated seen vs
  unfolding is_repeated
  Distinct-Unrepeated seen [] h d = tt
  Distinct-Unrepeated seen (v ∷ vs) h d = (
    elim (Option-cases (normalized_pair p v)) [
      | inl e ↦ rw (e, is_repeated) refl
      | inr (x, e) ↦ elim (Bool-cases (seen_pair x seen)) [
        | inl s ↦ absurd ((h x s).0 e)
        | inr s ↦ rw (e, is_repeated) s
      ]
    ],
    Distinct-Unrepeated (remember p seen v) vs
        (λ x s. elim (remember_only x seen v s) [ inl old ↦ (h x old).1 | inr e ↦ d.0 x e ]) d.1,
  )
