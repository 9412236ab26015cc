-- ===== src/Validation/Gate.antt =====
-- The verdict of a report: the gate of `validate_dataset_version` against an independent
-- description of a dataset version that may be trained on.
use defnex_mlops.Base.{
  List, ◌∷◌, [], ◌≡◌, true, arith, refl, inl, inr, ok, Result-cases, ap, ◌∙◌, ◌↔◌, Result,
}
use defnex_mlops.Validation.{Patterns}
use defnex_mlops.Validation.Report.{
  Row, decide_gate, Ratio, mark_duplicates, mark_leaks, Pair, pass, check_records, report_on,
  eval_user_contents, seen_pair, validate_dataset_version, validate-check_and_report,
  check_and_report, ValidationReport,
}
use defnex_mlops.Json.{Json}
use defnex_mlops.Validation.Clean.{IsCleanRecord, hard_errors_iff}
use defnex_mlops.Validation.Duplicates.{
  Disjoint, Unrepeated, Distinct, Unrepeated-Distinct, Distinct-Unrepeated, Nowhere,
}
use defnex_mlops.Validation.Rules.{hard_errors}
use defnex_mlops.Validation.Marks.{
  IsErrorless, values, clean_row_errors, count_bound, count-IsErrorless, IsErrorless-count,
  decide_gate-pass, mark_leaks-IsErrorless, IsErrorless-mark_leaks, mark_duplicates-IsErrorless,
  IsErrorless-mark_duplicates, values-mark_duplicates,
}

pub ok_injective : {E A : Type 0} (a b : A) (r : Result E A) → r ≡ ok a → r ≡ ok b → a ≡ b
ok_injective a b r h k = cc

module _ (p : Patterns) where
  abbrev pub AllCleanRecords : List Json → Type 0
  AllCleanRecords [] = Unit
  AllCleanRecords (v ∷ vs) = IsCleanRecord p v × AllCleanRecords vs

  pub check_records-values :
      (vs : List Json) (rows : List Row) → check_records p vs ≡ ok rows → values rows ≡ vs
  unfolding check_records
  check_records-values [] rows h = let e : [] ≡ rows = ground arith in rw (← e) refl
  check_records-values (v ∷ vs) rows h = elim (Result-cases (hard_errors p v)) [
    | inr (e, f) ↦ absurd (let h' = rw (f, check_records) at h in cc h')
    | inl (es, f) ↦ elim (Result-cases (check_records p vs)) [
      | inr (e, g) ↦ absurd (let h' = rw (f, g, check_records) at h in cc h')
      | inl (rest, g) ↦
          let h' = rw (f, g, check_records) at h in
          let e : record { value = v; errors = es } ∷ rest ≡ rows = ground arith in
          rw (← e) (ap (λ l. v ∷ l) (check_records-values vs rest g))
    ]
  ]

  check_records-clean :
      (vs : List Json) (rows : List Row)
      → check_records p vs ≡ ok rows
      → IsErrorless rows
      → AllCleanRecords vs
  unfolding check_records
  check_records-clean [] rows h c = tt
  check_records-clean (v ∷ vs) rows h c = elim (Result-cases (hard_errors p v)) [
    | inr (e, f) ↦ absurd (let h' = rw (f, check_records) at h in cc h')
    | inl (es, f) ↦ elim (Result-cases (check_records p vs)) [
      | inr (e, g) ↦ absurd (let h' = rw (f, g, check_records) at h in cc h')
      | inl (rest, g) ↦
          let h' = rw (f, g, check_records) at h in
          let e : rows ≡ record { value = v; errors = es } ∷ rest = ground arith in
          let c' = rw e at c in
          let none_found : es ≡ [] = clean_row_errors v es c'.0 in
          ((hard_errors_iff p v).0 (f ∙ ap ok none_found), check_records-clean vs rest g c'.1)
    ]
  ]

  clean-check_records :
      (vs : List Json)
      → AllCleanRecords vs
      → (rows : List Row) × (check_records p vs ≡ ok rows) × IsErrorless rows
  unfolding check_records
  clean-check_records [] c = ([], refl, tt)
  clean-check_records (v ∷ vs) c =
      let (rest, g, errorless) = clean-check_records vs c.1 in
      (
        record { value = v; errors = [] } ∷ rest,
        rw ((hard_errors_iff p v).1 c.0, g, check_records) refl,
        (refl, errorless),
      )

  -- A dataset version that may be trained on.
  pub record IsTrainable (evals records : List Json) : Type 0 where
    pub clean : AllCleanRecords records
    pub distinct : Distinct p records
    pub disjoint : Disjoint p (eval_user_contents p evals) records

  report_on-pass :
      (ratio : Ratio) (evals : List Json) (checked : List Row)
      → (report_on p ratio evals checked).gate_decision ≡ pass
      → IsErrorless (mark_leaks p (eval_user_contents p evals) (mark_duplicates p [] checked).0).0
  unfolding report_on
  report_on-pass ratio evals checked h =
      let rows = (mark_leaks p (eval_user_contents p evals) (mark_duplicates p [] checked).0).0 in
      let bound = count_bound rows in
      let (_, invalid) = decide_gate-pass ratio _ _ _ h in
      count-IsErrorless rows (omega (arith, bound, invalid))

  report_pass :
      (ratio : Ratio) (evals records : List Json) (checked : List Row)
      → check_records p records ≡ ok checked
      → (report_on p ratio evals checked).gate_decision ≡ pass
      → IsTrainable evals records
  report_pass ratio evals records checked c h =
      let same = check_records-values records checked c in
      let rows = (mark_duplicates p [] checked).0 in
      let (unmarked, apart) =
        mark_leaks-IsErrorless p (eval_user_contents p evals) rows
          (report_on-pass ratio evals checked h) in
      let (errorless, unrepeated) = mark_duplicates-IsErrorless p [] checked unmarked in
      record {
        clean = check_records-clean records checked c errorless;
        distinct = Unrepeated-Distinct p [] records (rw same at unrepeated);
        disjoint = rw (values-mark_duplicates p [] checked ∙ same) at apart;
      }

  report_on-trainable :
      (ratio : Ratio) (evals : List Json) (checked : List Row)
      → IsErrorless checked
      → Unrepeated p [] (values checked)
      → Disjoint p (eval_user_contents p evals) (values checked)
      → (report_on p ratio evals checked).gate_decision ≡ pass
  unfolding report_on decide_gate
  report_on-trainable ratio evals checked e u d =
      rw
        (
          IsErrorless-mark_duplicates p [] checked e u,
          IsErrorless-mark_leaks p (eval_user_contents p evals) checked e d,
          IsErrorless-count checked e,
          report_on,
        )
        (ground arith)

  Nowhere-seen_pair : (records : List Json) (x : Pair) → seen_pair x [] ≡ true → Nowhere p x records
  unfolding seen_pair
  Nowhere-seen_pair records x h = cc

  trainable_passes :
      (ratio : Ratio) (evals records : List Json) (checked : List Row)
      → check_records p records ≡ ok checked
      → IsTrainable evals records
      → (report_on p ratio evals checked).gate_decision ≡ pass
  trainable_passes ratio evals records checked c t =
      let (rows, c', errorless) = clean-check_records records t.clean in
      let same = check_records-values records rows c' in
      let rows_same : rows ≡ checked = ok_injective rows checked _ c' c in
      rw (← rows_same) (
        report_on-trainable ratio evals rows errorless
          (rw same (Distinct-Unrepeated p [] records (Nowhere-seen_pair records) t.distinct))
          (rw same t.disjoint))

  -- Whatever the ratio of the settings, a validation that produces a report gives the decision pass
  -- exactly if every record is clean, no two records have the same pair of normalized texts, and no
  -- record's user text is one of the eval set's.
  pub validate_dataset_version-pass :
      (ratio : Ratio) (records evals : List Json) (report : ValidationReport)
      → validate_dataset_version p ratio records evals ≡ ok report
      → (report.gate_decision ≡ pass) ↔ IsTrainable evals records
  unfolding check_and_report
  validate_dataset_version-pass ratio records evals report h =
      let hashed = validate-check_and_report p ratio records evals report h in
      elim (Result-cases (check_records p records)) [
        | inr (e, f) ↦ absurd (let h' = rw (f, check_and_report) at hashed in cc h')
        | inl (checked, f) ↦
            let h' = rw (f, check_and_report) at hashed in
            let e : report_on p ratio evals checked ≡ report = ok_injective _ _ _ refl h' in
            rw (← e) (
              report_pass ratio evals records checked f,
              trainable_passes ratio evals records checked f,
            )
      ]
