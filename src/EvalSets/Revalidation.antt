-- ===== src/EvalSets/Revalidation.antt =====
-- A new golden set and the data that was validated before it, put through the validation again.
use defnex_mlops.Base.{
  ℕ, List, [], ◌∷◌, ◌++◌, ◌≡◌, arith, refl, ok, inl, inr, Result-cases, ◌∙◌, ap, sym,
}
use mathlib.Core.Path.{subst}
use defnex_mlops.Json.{Json}
use defnex_mlops.Text.{Text}
use defnex_mlops.Validation.{Patterns}
use defnex_mlops.Validation.Report.{
  Row, Ratio, mark_leaks, mark_duplicates, report_on, check_records, eval_user_contents,
  validate_dataset_version, validate-check_and_report, check_and_report, ValidationReport,
}
use defnex_mlops.Validation.Marks.{values, values-mark_duplicates}
use defnex_mlops.Validation.Duplicates.{Disjoint}
use defnex_mlops.Validation.Gate.{check_records-values, ok_injective}
use defnex_mlops.EvalSets.{EvalSetVersion, EvalSetTables, create_eval_set_version}
use defnex_mlops.EvalSets.Leakage.{ApartFrom, create_eval_set_version_outcome}

module _ (p : Patterns) where
  mark_leaks-Disjoint :
      (evals : List Text) (rows : List Row)
      → Disjoint p evals (values rows)
      → (mark_leaks p evals rows).1 ≡ 0
  unfolding mark_leaks
  mark_leaks-Disjoint evals [] d = refl
  mark_leaks-Disjoint evals (r ∷ rows) d = rw (d.0, mark_leaks-Disjoint evals rows d.1) refl

  ApartFrom-member :
      (records r : List Json) (before after : List (List Json))
      → ApartFrom p records (before ++ r ∷ after)
      → Disjoint p (eval_user_contents p records) r
  ApartFrom-member records r [] after a = a.0
  ApartFrom-member records r (b ∷ before) after a = ApartFrom-member records r before after a.1

  leakage-Disjoint :
      (ratio : Ratio) (records evals : List Json) (report : ValidationReport)
      → Disjoint p (eval_user_contents p evals) records
      → validate_dataset_version p ratio records evals ≡ ok report
      → report.leakage_overlaps ≡ 0
  unfolding check_and_report report_on
  leakage-Disjoint ratio records evals report d h =
      let hashed = validate-check_and_report p ratio records evals report h in
      elim (Result-cases (check_records p records)) [
        | inr (e, f) ↦ absurd (let h' = rw (f, check_and_report) at hashed in cc h')
        | inl (checked, f) ↦
            let h' = rw (f, check_and_report) at hashed in
            let same =
              values-mark_duplicates p [] checked ∙ check_records-values p records checked f in
            let none_leaked =
              mark_leaks-Disjoint (eval_user_contents p evals) (mark_duplicates p [] checked).0
                (subst (λ l. Disjoint p (eval_user_contents p evals) l) (sym same) d) in
            ap (λ x. x.leakage_overlaps) (sym (ok_injective _ report _ refl h')) ∙ none_leaked
      ]

  -- If a golden set's version was created, then a validation of any data that was validated before
  -- it finds no leakage of its questions.
  pub create-validate :
      (reports : List (List Json)) (id now k : ℕ) (records : List Json) (w : EvalSetTables)
      (row : EvalSetVersion) (before after : List (List Json)) (r : List Json) (ratio : Ratio)
      (report : ValidationReport)
      → (create_eval_set_version p reports id now k records w).0 ≡ ok row
      → reports ≡ before ++ r ∷ after
      → validate_dataset_version p ratio r row.records ≡ ok report
      → report.leakage_overlaps ≡ 0
  create-validate reports id now k records w row before after r ratio report h e v =
      elim (create_eval_set_version_outcome p reports id now k records w) [
        | inr (_, (n, f), _) ↦ absurd (cc)
        | inl (apart, (row', f, made)) ↦
            let same_row : row' ≡ row = ground arith in
            let same_records : row.records ≡ records =
              ap (λ x. x.records) (sym same_row) ∙ made.content in
            let apart_r =
              ApartFrom-member records r before after
                (subst (λ l. ApartFrom p records l) e apart) in
            leakage-Disjoint ratio r row.records report
              (subst (λ l. Disjoint p (eval_user_contents p l) r) (sym same_records) apart_r) v
      ]
