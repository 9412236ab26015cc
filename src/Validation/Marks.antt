-- ===== src/Validation/Marks.antt =====
-- The rows of a report that have no error, before and after the duplicate and leakage checks.
use defnex_mlops.Base.{
  ℕ, List, count, ◌∷◌, [], ◌≡◌, ◌≤◌, false, length, true, Bool-cases, List-cases, arith, refl, inl,
  inr,
}
use defnex_mlops.Validation.{h7_duplicate, HardError, Patterns, h8_leakage}
use defnex_mlops.Validation.Report.{
  Row, decide_gate, Ratio, is_clean, mark_duplicates, mark_leaks, Pair, add_error, pass, remember,
  is_repeated, leaks,
}
use defnex_mlops.Json.{Json}
use defnex_mlops.Text.{Text}
use defnex_mlops.Validation.Duplicates.{Disjoint, Unrepeated}

abbrev pub IsErrorless : List Row → Type 0
IsErrorless [] = Unit
IsErrorless (r ∷ rows) = (is_clean r ≡ true) × IsErrorless rows

abbrev pub values : List Row → List Json
values [] = []
values (r ∷ rows) = r.value ∷ values rows

added_not_clean : (e : HardError) (r : Row) → is_clean (add_error e r) ≡ false
added_not_clean e r = elim (List-cases r.errors) [ inl h ↦ rw h refl | inr (x, xs, h) ↦ rw h refl ]

pub clean_row_errors :
    (v : Json) (es : List HardError) → is_clean (record { value = v; errors = es }) ≡ true → es ≡ []
clean_row_errors v [] h = refl
clean_row_errors v (x ∷ xs) h = cc

pub count_bound : (rows : List Row) → count is_clean rows ≤ length rows
count_bound [] = omega arith
count_bound (r ∷ rows) = let rest = count_bound rows in ground arith

pub count-IsErrorless : (rows : List Row) → count is_clean rows ≡ length rows → IsErrorless rows
count-IsErrorless [] h = tt
count-IsErrorless (r ∷ rows) h = elim (Bool-cases (is_clean r)) [
  | inl c ↦ (c, count-IsErrorless rows (ground arith))
  | inr c ↦ absurd (let bound = count_bound rows in ground arith)
]

pub IsErrorless-count : (rows : List Row) → IsErrorless rows → count is_clean rows ≡ length rows
IsErrorless-count [] h = refl
IsErrorless-count (r ∷ rows) h = rw (h.0, IsErrorless-count rows h.1) refl

pub decide_gate-pass :
    (ratio : Ratio) (leaked invalid total : ℕ)
    → decide_gate ratio leaked invalid total ≡ pass
    → (leaked ≡ 0) × (invalid ≡ 0)
unfolding decide_gate
decide_gate-pass ratio leaked invalid total h = (ground arith, ground arith)

module _ (p : Patterns) where
  pub mark_leaks-IsErrorless :
      (evals : List Text) (rows : List Row)
      → IsErrorless (mark_leaks p evals rows).0
      → IsErrorless rows × Disjoint p evals (values rows)
  unfolding mark_leaks
  mark_leaks-IsErrorless evals [] h = (tt, tt)
  mark_leaks-IsErrorless evals (r ∷ rows) h = elim (Bool-cases (leaks p evals r.value)) [
    | inl e ↦
        absurd (
          let h' = rw (e, mark_leaks) at h in let no = added_not_clean h8_leakage r in ground arith)
    | inr e ↦
        let h' = rw (e, mark_leaks) at h in
        let rest = mark_leaks-IsErrorless evals rows h'.1 in ((h'.0, rest.0), (e, rest.1))
  ]

  pub IsErrorless-mark_leaks :
      (evals : List Text) (rows : List Row)
      → IsErrorless rows
      → Disjoint p evals (values rows)
      → mark_leaks p evals rows ≡ (rows, 0)
  unfolding mark_leaks
  IsErrorless-mark_leaks evals [] h d = refl
  IsErrorless-mark_leaks evals (r ∷ rows) h d =
      rw (d.0, IsErrorless-mark_leaks evals rows h.1 d.1, mark_leaks) refl

  pub mark_duplicates-IsErrorless :
      (seen : List Pair) (rows : List Row)
      → IsErrorless (mark_duplicates p seen rows).0
      → IsErrorless rows × Unrepeated p seen (values rows)
  unfolding mark_duplicates
  mark_duplicates-IsErrorless seen [] h = (tt, tt)
  mark_duplicates-IsErrorless seen (r ∷ rows) h = elim (Bool-cases (is_repeated p seen r.value)) [
    | inl e ↦ absurd (
        let h' = rw (e, mark_duplicates) at h in
        let no = added_not_clean h7_duplicate r in ground arith)
    | inr e ↦
        let h' = rw (e, mark_duplicates) at h in
        let rest = mark_duplicates-IsErrorless (remember p seen r.value) rows h'.1 in
        ((h'.0, rest.0), (e, rest.1))
  ]

  pub IsErrorless-mark_duplicates :
      (seen : List Pair) (rows : List Row)
      → IsErrorless rows
      → Unrepeated p seen (values rows)
      → mark_duplicates p seen rows ≡ (rows, 0)
  unfolding mark_duplicates
  IsErrorless-mark_duplicates seen [] h d = refl
  IsErrorless-mark_duplicates seen (r ∷ rows) h d =
      rw (d.0, IsErrorless-mark_duplicates (remember p seen r.value) rows h.1 d.1, mark_duplicates)
        refl

  pub values-mark_duplicates :
      (seen : List Pair) (rows : List Row) → values (mark_duplicates p seen rows).0 ≡ values rows
  unfolding mark_duplicates
  values-mark_duplicates seen [] = refl
  values-mark_duplicates seen (r ∷ rows) =
      let rest = values-mark_duplicates (remember p seen r.value) rows in
      elim (Bool-cases (is_repeated p seen r.value)) [
        | inl e ↦ rw (e, mark_duplicates, rest) refl
        | inr e ↦ rw (e, mark_duplicates, rest) refl
      ]
