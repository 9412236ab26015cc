-- ===== src/EvalSets/Leakage.antt =====
-- A golden set is kept apart from the data that was validated, and its versions from each other.
use defnex_mlops.Base.{
  ℕ, List, [], ◌∷◌, ◌++◌, ◌≡◌, arith, none, some, false, refl, ok, err, inl, inr, ◌⊎◌, ◌≢◌, ◌↔◌,
  Bool-cases, Option-cases, List-cases, ap,
}
use mathlib.Core.Path.{subst}
use defnex_mlops.Text.{Text, same_text, same_text_refl, same_text_eq}
use defnex_mlops.Json.{Json}
use defnex_mlops.Validation.{Patterns}
use defnex_mlops.Validation.Report.{user_content, eval_user_contents, seen_text, leaks}
use defnex_mlops.Validation.Duplicates.{Disjoint}
use defnex_mlops.EvalSets.{
  EvalSetVersion, EvalSetTables, overlaps_validated_data, get_eval_set_version,
  get_latest_eval_set_version, next_version, register_eval_set, validated_user_contents, overlaps,
  insert_text, create_eval_set_version,
}
use defnex_mlops.EvalSets.Versions.{
  get_eval_set_version-next, seen_text-append, append-seen_text, get_latest_eval_set_version-append,
  get_eval_set_version-append, NoCommon,
}

module _ (p : Patterns) where
  Disjoint-NoCommon :
      (a : List Text) (vs : List Json) → Disjoint p a vs → NoCommon a (eval_user_contents p vs)
  unfolding eval_user_contents leaks seen_text
  Disjoint-NoCommon a [] d s h = refl
  Disjoint-NoCommon a (v ∷ vs) d s h =
      let rest = Disjoint-NoCommon a vs d.1 s h in
      elim (Option-cases (user_content p v)) [
        | inl e ↦ rw (e, eval_user_contents) rest
        | inr (t, e) ↦ elim (Bool-cases (same_text s t)) [
          | inl same ↦
              absurd
                (let d' = rw (e, leaks) at d.0 in let st = same_text_eq s t same in ground arith)
          | inr other ↦ rw (e, eval_user_contents) (ground arith)
        ]
      ]

  NoCommon-Disjoint :
      (a : List Text) (vs : List Json) → NoCommon (eval_user_contents p vs) a → Disjoint p a vs
  unfolding eval_user_contents leaks seen_text
  NoCommon-Disjoint a [] h = tt
  NoCommon-Disjoint a (v ∷ vs) h = (
    elim (Option-cases (user_content p v)) [
      | inl e ↦ rw (e, leaks) refl
      | inr (t, e) ↦ rw (e, leaks) (h t (rw (e, eval_user_contents) (rw (same_text_refl t) refl)))
    ],
    NoCommon-Disjoint a vs (λ s seen. h s (elim (Option-cases (user_content p v)) [
      | inl e ↦ rw (e, eval_user_contents) seen
      | inr (t, e) ↦ rw (e, eval_user_contents) (ground arith)
    ])),
  )

  -- Two lists of records of which the first does not ask what the second asks, nor the other way
  -- round.
  Disjoint-sym :
      (us vs : List Json)
      → Disjoint p (eval_user_contents p us) vs
      → Disjoint p (eval_user_contents p vs) us
  Disjoint-sym us vs d =
      NoCommon-Disjoint (eval_user_contents p vs) us
        (Disjoint-NoCommon (eval_user_contents p us) vs d)

  -- The golden set shares no question with the data of any stored report.
  abbrev pub ApartFrom : List Json → List (List Json) → Type 0
  ApartFrom records [] = Unit
  ApartFrom records (r ∷ reports) =
      Disjoint p (eval_user_contents p records) r × ApartFrom records reports

  leaks-append :
      (a b : List Text) (v : Json)
      → (leaks p (a ++ b) v ≡ false) ↔ ((leaks p a v ≡ false) × (leaks p b v ≡ false))
  unfolding leaks
  leaks-append a b v = elim (Option-cases (user_content p v)) [
    | inl e ↦ rw (e, leaks) (λ _. (refl, refl), λ _. refl)
    | inr (s, e) ↦
        rw (e, leaks) (λ h. seen_text-append s a b h, λ h. append-seen_text s a b h.0 h.1)
  ]

  Disjoint-append :
      (a b : List Text) (vs : List Json)
      → Disjoint p (a ++ b) vs ↔ (Disjoint p a vs × Disjoint p b vs)
  Disjoint-append a b [] = (λ _. (tt, tt), λ _. tt)
  Disjoint-append a b (v ∷ vs) =
      let (split, join) = Disjoint-append a b vs in
      let (apart, together) = leaks-append a b v in
      (
        λ d. (((apart d.0).0, (split d.1).0), ((apart d.0).1, (split d.1).1)),
        λ d. (together (d.0.0, d.1.0), join (d.0.1, d.1.1)),
      )

  insert_text-filled : (s : Text) (texts : List Text) → insert_text p s texts ≢ []
  unfolding seen_text
  insert_text-filled s [] h = ground arith
  insert_text-filled s (t ∷ texts) h = ground arith

  overlaps-Disjoint : (a : List Text) (vs : List Json) → (overlaps p a vs ≡ []) ↔ Disjoint p a vs
  unfolding leaks overlaps
  overlaps-Disjoint a [] = (λ _. tt, λ _. refl)
  overlaps-Disjoint a (v ∷ vs) =
      let (there, back) = overlaps-Disjoint a vs in
      elim (Option-cases (user_content p v)) [
        | inl e ↦ rw (e, leaks, overlaps) (λ h. (refl, there h), λ d. back d.1)
        | inr (s, e) ↦ elim (Bool-cases (seen_text s a)) [
          | inl seen ↦
              rw (e, leaks, overlaps, seen)
                (λ h. absurd (insert_text-filled s (overlaps p a vs) h), λ d. cc)
          | inr unseen ↦ rw (e, leaks, overlaps, unseen) (λ h. (refl, there h), λ d. back d.1)
        ]
      ]

  Disjoint-ApartFrom :
      (reports : List (List Json)) (records : List Json)
      → Disjoint p (validated_user_contents p reports) records ↔ ApartFrom records reports
  unfolding validated_user_contents seen_text
  Disjoint-ApartFrom [] records = (λ _. tt, λ _. NoCommon-Disjoint [] records (λ s seen. refl))
  Disjoint-ApartFrom (r ∷ reports) records =
      let (split, join) =
        Disjoint-append (eval_user_contents p r) (validated_user_contents p reports) records in
      let (there, back) = Disjoint-ApartFrom reports records in
      (
        λ d. (Disjoint-sym r records (split d).0, there (split d).1),
        λ d. join (Disjoint-sym records r d.0, back d.1),
      )

  -- What the creation of a version leaves: a new row, the latest of its set, whose number no
  -- earlier row of the set has.
  pub record Created (k : ℕ) (records : List Json) (w : EvalSetTables) (row : EvalSetVersion)
      (w' : EvalSetTables) : Type 0 where
    pub content : row.records ≡ records
    pub appended : w'.eval_set_versions ≡ w.eval_set_versions ++ row ∷ []
    pub number_free : get_eval_set_version k row.version w.eval_set_versions ≡ none
    pub found : get_eval_set_version k row.version w'.eval_set_versions ≡ some row
    pub is_latest : get_latest_eval_set_version k w'.eval_set_versions ≡ some row

  versions-register_eval_set :
      (k : ℕ) (w : EvalSetTables) → (register_eval_set k w).eval_set_versions ≡ w.eval_set_versions
  unfolding register_eval_set
  versions-register_eval_set k w = ground arith

  -- The creation of a golden set's version succeeds exactly if its questions are apart from the data
  -- of every stored report. Then the new row is the latest of its set, under a number that no
  -- earlier row of the set has; otherwise the versions stay as they were.
  pub create_eval_set_version_outcome :
      (reports : List (List Json)) (id now k : ℕ) (records : List Json) (w : EvalSetTables)
      → let (r, w') = create_eval_set_version p reports id now k records w in
        (ApartFrom records reports
          × ((row : EvalSetVersion) × (r ≡ ok row) × Created k records w row w'))
        ⊎ ((¬ ApartFrom records reports)
            × ((n : ℕ) × (r ≡ err (overlaps_validated_data n)))
            × (w'.eval_set_versions ≡ w.eval_set_versions))
  unfolding create_eval_set_version
  create_eval_set_version_outcome reports id now k records w =
      let (there, back) = overlaps-Disjoint (validated_user_contents p reports) records in
      let (apart, joined) = Disjoint-ApartFrom reports records in
      let same = versions-register_eval_set k w in
      let t = (register_eval_set k w).eval_set_versions in
      elim (List-cases (overlaps p (validated_user_contents p reports) records)) [
        | inl e ↦
            let row : EvalSetVersion = record {
              id = id;
              eval_set_id = k;
              version = next_version k t;
              records = records;
              created_at = now;
            } in
            let free = get_eval_set_version-next k (next_version k t) t (omega arith) in
            let made : Created k records w row
                (record (register_eval_set k w) { eval_set_versions = t ++ row ∷ [] }) =
              record {
                content = refl;
                appended = ap (λ l. l ++ row ∷ []) same;
                number_free =
                    subst (λ l. get_eval_set_version k (next_version k t) l ≡ none) same free;
                found = get_eval_set_version-append k row t refl free;
                is_latest = get_latest_eval_set_version-append k row t refl (omega arith);
              } in
            rw (e, create_eval_set_version) (inl (apart (there e), (row, refl, made)))
        | inr (s, texts, e) ↦
            rw (e, create_eval_set_version)
              (inr (λ d. let none_left = back (joined d) in ground arith, (_, refl), same))
      ]
