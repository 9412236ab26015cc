-- ===== src/Feedback/Candidates.antt =====
-- What the validation of app/services/validation_service.py makes of curated feedback.
use defnex_mlops.Base.{◌∷◌, List, ◌≡◌, [], false, true, Bool-cases, arith, ok, ◌≢◌, inl, inr, refl}
use defnex_mlops.Feedback.{Feedback, approved_candidates_as_records, candidate_fields, is_approved}
use defnex_mlops.Validation.{Patterns, misses_required, metadata_of}
use defnex_mlops.Json.{Fields, Json, object, get, get_field, key_code, is_truthy}
use defnex_mlops.Validation.Report.{Ratio, ValidationReport, validate_dataset_version, pass}
use defnex_mlops.Validation.Clean.{IsCleanRecord, clean-IsAccepted}
use defnex_mlops.Validation.Gate.{AllCleanRecords, validate_dataset_version-pass}

-- No record made of feedback names a source dataset.
candidate_misses : (r : Feedback) → misses_required (candidate_fields r) ≡ true
unfolding misses_required metadata_of candidate_fields get get_field key_code is_truthy
candidate_misses r = ground arith

clean_is_complete :
    (p : Patterns) (d : Fields) → IsCleanRecord p (object d) → misses_required d ≡ false
clean_is_complete p d c =
    let a = clean-IsAccepted p (object d) c in
    let whole = a.is_dictionary in let e : d ≡ a.fields = ground arith in rw e a.complete

pass_has_none :
    (p : Patterns) (rows : List Feedback)
    → AllCleanRecords p (approved_candidates_as_records rows)
    → approved_candidates_as_records rows ≡ []
unfolding approved_candidates_as_records
pass_has_none p [] c = refl
pass_has_none p (r ∷ rows) c = elim (Bool-cases (is_approved r.curation_status)) [
  | inl e ↦ absurd (
      let c' = rw (e, approved_candidates_as_records) at c in
      let whole = clean_is_complete p (candidate_fields r) c'.0 in
      let missing = candidate_misses r in ground arith)
  | inr e ↦
      let c' = rw (e, approved_candidates_as_records) at c in
      rw (e, approved_candidates_as_records) (pass_has_none p rows c')
]

-- A dataset of approved feedback never passes the validation gate, whatever the settings and the eval
-- set: if there is a candidate at all, the decision is not pass.
pub candidates_never_pass :
    (p : Patterns) (ratio : Ratio) (rows : List Feedback) (evals : List Json)
    (report : ValidationReport)
    → validate_dataset_version p ratio (approved_candidates_as_records rows) evals ≡ ok report
    → approved_candidates_as_records rows ≢ []
    → report.gate_decision ≢ pass
candidates_never_pass p ratio rows evals report h some_row passes =
    let trainable =
      (validate_dataset_version-pass p ratio (approved_candidates_as_records rows) evals report h).0
        passes in
    some_row (pass_has_none p rows trainable.clean)
