-- ===== src/Tests/Validation.antt =====
-- The validation of small datasets, and of feedback.
use defnex_mlops.Base.{
  ◌∷◌, ℕ, [], ◌≡◌, refl, ◌↔◌, ◌≢◌, List, err, ok, some, true, ◌==◌, false, none, if◌then◌else◌, leb,
  ◌+◌,
}
use defnex_mlops.Json.{
  object, text, array, field, end, cons, nil, id_key, messages_key, metadata_key, role_key,
  content_key, source_dataset_key, source_id_key, Json, Fields, get_field, is_array, is_object, get,
  is_unhashable, key_code, is_truthy,
}
use defnex_mlops.Validation.{
  Patterns, user_role, unhashable_role, h1_missing_required_field, h4_below_min_length,
  shape_errors, all_objects, messages_of, message_objects, has_role, is_valid_role, metadata_of,
  misses_required,
}
use defnex_mlops.Validation.Report.{
  Ratio, Row, report_on, validate_dataset_version, pass, check_records, check_and_report,
}
use defnex_mlops.Validation.Rules.{
  hard_errors, rule_errors, messages_errors, message_errors, sorted_set, has_error, content_errors,
  error_code, has_boilerplate, is_control_char, is_empty, text_errors,
}
use defnex_mlops.Feedback.{
  CurationStatus, approved_candidates_as_records, Feedback, candidate_fields, approved, awaiting,
  not_pending, is_approved, ground_truth,
}
use defnex_mlops.Feedback.Curation.{decide, curated_once}
use defnex_mlops.Idempotency.{
  check_idempotency, store_idempotency, default_ttl_seconds, get_cached_response, find_key,
}
use defnex_mlops.Text.{codes, contains_text, same_text, strip, word_count}
use defnex_mlops.Validation.Clean.{IsCleanRecord}
use defnex_mlops.Validation.Shape.{IsShaped, is_misshapen, hard_errors-IsShaped}
use defnex_mlops.Validation.Gate.{IsTrainable, validate_dataset_version-pass}
use defnex_mlops.Feedback.Candidates.{candidates_never_pass}
use defnex_mlops.Validation.Raises.{validate_dataset_version-RaisesIff, has_unhashable_role}
use defnex_mlops.Idempotency.Replay.{check-store}

-- Only the blank is white space, and the classifiers find nothing.
abbrev pub patterns : Patterns
patterns = record {
  is_space = λ c. c == 32;
  lower = λ s. s;
  empty_enumeration = λ _. false;
  encodable = λ _. true;
}

abbrev pub half : Ratio
half = record { numerator = 1; denominator = 2 }

abbrev origin : Json
origin =
    object
      (field source_dataset_key (text (codes "d")) (field source_id_key (text (codes "s")) end))

abbrev entry : Json → Fields
entry role = field id_key (text (codes "1")) (
    field messages_key
      (array (cons (object (field role_key role (field content_key (text (codes "why")) end))) nil))
      (field metadata_key origin end))

abbrev pub asked : Json
asked = object (entry (text user_role))

abbrev misspelt : Json
misspelt = object (entry (array nil))

hard_errors-IsShaped_example :
    ((hard_errors patterns asked ≡ ok []) ↔ IsCleanRecord patterns asked)
    × ((is_misshapen (hard_errors patterns asked) ≡ false) ↔ IsShaped asked)
hard_errors-IsShaped_example = hard_errors-IsShaped patterns asked

abbrev pub checked : List Row
checked = record { value = asked; errors = [] } ∷ record { value = asked; errors = [] } ∷ []

pub asked_clean : hard_errors patterns asked ≡ ok []
unfolding hard_errors shape_errors get_field is_array is_object get all_objects rule_errors
    messages_errors messages_of message_objects message_errors is_unhashable sorted_set has_error
    is_truthy key_code contains_text same_text strip word_count content_errors error_code
    has_boilerplate is_control_char is_empty text_errors has_role is_valid_role metadata_of
    misses_required
asked_clean = refl

pub validates :
    validate_dataset_version patterns half (asked ∷ asked ∷ []) []
    ≡ ok (report_on patterns half [] checked)
unfolding validate_dataset_version check_and_report check_records
validates =
    rw (asked_clean, check_records, validate_dataset_version, check_and_report)
      (rw asked_clean refl)

validate_dataset_version-pass_example :
    ((report_on patterns half [] checked).gate_decision ≡ pass)
    ↔ IsTrainable patterns [] (asked ∷ asked ∷ [])
validate_dataset_version-pass_example =
    validate_dataset_version-pass patterns half (asked ∷ asked ∷ []) []
      (report_on patterns half [] checked) validates

validate_dataset_version-RaisesIff_example :
    validate_dataset_version patterns half (asked ∷ misspelt ∷ []) [] ≡ err unhashable_role
unfolding has_unhashable_role shape_errors get_field is_array is_object get all_objects messages_of
    message_objects is_unhashable key_code
validate_dataset_version-RaisesIff_example =
    validate_dataset_version-RaisesIff patterns half (asked ∷ misspelt ∷ []) []

abbrev comment_on : CurationStatus → Feedback
comment_on status = record {
  feedback_id = codes "f";
  model_version_id = 2;
  prompt = codes "why";
  response = codes "so";
  rating = 4;
  correction = none;
  curation_status = status;
  submitted_by = none;
  submitted_at = 10;
  curated_by = none;
  curated_at = none;
}

abbrev pub comments : List Feedback
comments = comment_on approved ∷ []

abbrev candidate_row : Row
candidate_row = record {
  value = object (candidate_fields (comment_on approved));
  errors = h1_missing_required_field ∷ h4_below_min_length ∷ [];
}

candidate_errors : hard_errors patterns candidate_row.value ≡ ok candidate_row.errors
unfolding hard_errors shape_errors get_field is_array is_object get all_objects rule_errors
    messages_errors messages_of message_objects message_errors is_unhashable sorted_set has_error
    is_truthy key_code contains_text same_text strip word_count content_errors error_code
    has_boilerplate is_control_char is_empty text_errors has_role is_valid_role metadata_of
    misses_required candidate_fields ground_truth
candidate_errors = refl

candidates_validate :
    validate_dataset_version patterns half (approved_candidates_as_records comments) []
    ≡ ok (report_on patterns half [] (candidate_row ∷ []))
unfolding validate_dataset_version check_and_report check_records approved_candidates_as_records
    is_approved
candidates_validate =
    rw
      (
        approved_candidates_as_records, candidate_errors, check_records, validate_dataset_version,
        check_and_report,
      )
      refl

some_candidate : approved_candidates_as_records comments ≢ []
unfolding approved_candidates_as_records is_approved
some_candidate h = absurd (cc h)

candidates_never_pass_example :
    (report_on patterns half [] (candidate_row ∷ [])).gate_decision ≢ pass
candidates_never_pass_example =
    candidates_never_pass patterns half comments []
      (report_on patterns half [] (candidate_row ∷ [])) candidates_validate some_candidate

curated_once_example :
    let (_, rows') = decide true (codes "f") none 20 (comment_on awaiting ∷ []) in
    decide false (codes "f") (some 1) 21 rows' ≡ (err not_pending, rows')
curated_once_example =
    curated_once true false (codes "f") none (some 1) 20 21 (comment_on awaiting ∷ [])

check_misses : (check_idempotency {B = ℕ} (some 5) 2 100 []).0 ≡ none
unfolding check_idempotency get_cached_response find_key
check_misses = refl

check-store_example :
    let (_, missed) = check_idempotency {B = ℕ} (some 5) 2 100 [] in
    let (stored, kept) = store_idempotency (some 5) 2 7 100 missed in
    (stored ≡ ok tt)
    × ((check_idempotency (some 5) 2 200 kept).0
        ≡ (if leb 200 (100 + default_ttl_seconds) then some 7 else none))
check-store_example = check-store 5 2 7 100 200 [] check_misses
