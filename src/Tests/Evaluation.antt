-- ===== src/Tests/Evaluation.antt =====
-- A golden set of one question, the evaluation of a version on it, and a later drift check.
use defnex_mlops.Validation.{shape_errors, all_objects, is_valid_role, metadata_of, misses_required}
use defnex_mlops.Validation.Rules.{
  rule_errors, messages_errors, message_errors, sorted_set, has_error, content_errors, error_code,
  has_boilerplate, is_control_char, is_empty, text_errors,
}
use defnex_mlops.Json.{is_array, is_object, is_unhashable, is_truthy}
use defnex_mlops.Text.{contains_text, word_count}
use defnex_mlops.Evaluation.Drift.{run_checks, deployed_versions, sort_by_id}
use defnex_mlops.Registry.{is_deployed}
use defnex_mlops.EvalSets.{
  register_eval_set, overlaps, validated_user_contents, next_version, get_latest_eval_set_version,
}
use defnex_mlops.Validation.Report.{seen_text, check_and_report}
use defnex_mlops.Text.{strip}
use defnex_mlops.Evaluation.Worker.{
  claim_pending_evaluation, evaluate_claimed, apply_evaluation, notify_admins, is_value_error,
}
use defnex_mlops.Registry.Lifecycle.{becomes_evaluated, is_registered}
use defnex_mlops.Validation.{message_objects, has_role}
use defnex_mlops.Text.{same_text}
use defnex_mlops.Json.{get_field, key_code}
use defnex_mlops.Evaluation.{trend}
use defnex_mlops.Registry.Lifecycle.{is_registered}
use defnex_mlops.Evaluation.{trend}
use defnex_mlops.Text.{same_text}
use defnex_mlops.Validation.{has_role}
use defnex_mlops.Validation.{message_objects}
use defnex_mlops.Json.{get}
use defnex_mlops.Validation.{messages_of}
use defnex_mlops.Validation.{iter_message_objects}
use defnex_mlops.Validation.Report.{user_content_of}
use defnex_mlops.Validation.Report.{user_content}
use defnex_mlops.Evaluation.{ask_all}
use defnex_mlops.Evaluation.{evaluate_loaded}
use defnex_mlops.Serving.{mock_backend}
use defnex_mlops.EvalSets.{get_eval_set_version}
use defnex_mlops.Base.{map, ℕ, ◌∷◌, [], ◌≡◌, ◌⊎◌, ok, err, some, refl, true, false, all, List}
use defnex_mlops.Json.{
  Json, object, field, array, cons, nil, end, text, messages_key, role_key, content_key,
}
use defnex_mlops.Text.{codes}
use defnex_mlops.Validation.{user_role, h1_missing_required_field}
use defnex_mlops.Validation.Rules.{hard_errors}
use defnex_mlops.Evaluation.Worker.{next_requested}
use defnex_mlops.Evaluation.Steady.{IsSteady, IsDeployedFrom}
use defnex_mlops.Validation.Report.{
  eval_user_contents, Row, validate_dataset_version, report_on, check_records,
}
use defnex_mlops.Registry.{ModelVersion, registered, deployed}
use defnex_mlops.Registry.Lifecycle.{EvaluationUpdate, submit_evaluation}
use defnex_mlops.Serving.{Event, ServingBackend}
use defnex_mlops.EvalSets.{
  EvalSetVersion, EvalSetTables, create_eval_set_version, overlaps_validated_data,
}
use defnex_mlops.EvalSets.Leakage.{ApartFrom, Created, create_eval_set_version_outcome}
use defnex_mlops.EvalSets.Revalidation.{create-validate}
use defnex_mlops.Evaluation.{compute_evaluation_update, golden_set, update_from}
use defnex_mlops.Evaluation.Worker.{EvaluationDb, ModelDriftCheck, process_next_evaluation}
use defnex_mlops.Evaluation.Drift.{run_once, run_drift_check_for_version, drift_check}
use defnex_mlops.Evaluation.Questions.{Measured, compute_evaluation_update-Measured}
use defnex_mlops.Evaluation.Queue.{Processed, process_next_evaluation-Processed}
use defnex_mlops.Evaluation.Steady.{steady-run_drift_check}
use defnex_mlops.Evaluation.Checks.{Checked, Checking, is_of_deployed}
use defnex_mlops.Evaluation.Cycle.{run_once-Checked}
use defnex_mlops.Tests.Data.{version_row, deps}
use defnex_mlops.Tests.Validation.{patterns, half, asked}

abbrev golden : EvalSetVersion
golden = record { id = 1; eval_set_id = 3; version = 1; records = asked ∷ []; created_at = 0 }

abbrev new_version : ModelVersion
new_version = record (version_row 2 registered) { evaluation_requested = true }

abbrev live_version : ModelVersion
live_version = version_row 2 deployed

abbrev db : ModelVersion → EvaluationDb
db mv = record {
  tables = record { versions = mv ∷ []; runs = []; eval_set_versions = golden ∷ [] };
  admins = 1 ∷ [];
  notifications = [];
  drift_checks = [];
}

abbrev backend : ServingBackend (List Event)
backend = (deps 1).backend

abbrev findings : ModelVersion → EvaluationUpdate
findings mv = update_from (db mv).tables mv (record { wins = 1; losses = 0; regressions = [] })

evaluates :
    (compute_evaluation_update patterns backend 100 (db new_version).tables new_version []).0
    ≡ ok (findings new_version)
unfolding compute_evaluation_update golden_set get_eval_set_version mock_backend evaluate_loaded
    ask_all user_content user_content_of iter_message_objects messages_of get message_objects
    has_role same_text
evaluates = refl

compute_evaluation_update-Measured_example :
    Measured patterns backend 100
      (db new_version).tables
      new_version
      (findings new_version)
      (compute_evaluation_update patterns backend 100 (db new_version).tables new_version []).1
compute_evaluation_update-Measured_example =
    compute_evaluation_update-Measured patterns backend 100 (db new_version).tables new_version []
      (findings new_version) evaluates

abbrev evaluated_version : ModelVersion
evaluated_version =
    (submit_evaluation (findings (record new_version { evaluation_requested = false }))
      (record new_version { evaluation_requested = false })).1

processes :
    (process_next_evaluation patterns backend 100 (λ t. t) (db new_version) []).0
    ≡ ok (some evaluated_version)
unfolding process_next_evaluation next_requested claim_pending_evaluation evaluate_claimed
    compute_evaluation_update golden_set get_eval_set_version mock_backend evaluate_loaded
    submit_evaluation apply_evaluation ask_all user_content user_content_of iter_message_objects
    messages_of get message_objects is_value_error notify_admins trend update_from becomes_evaluated
    is_registered same_text has_role
processes = refl

requested : next_requested (db new_version).tables.versions ≡ some new_version
unfolding next_requested
requested = refl

process_next_evaluation-Processed_example :
    Processed patterns backend 100 new_version evaluated_version
      (process_next_evaluation patterns backend 100 (λ t. t) (db new_version) []).1
process_next_evaluation-Processed_example =
    process_next_evaluation-Processed patterns backend 100 (db new_version) [] new_version
      evaluated_version requested refl processes

abbrev check_row : ModelDriftCheck
check_row = drift_check 60 live_version (findings live_version)

rechecks :
    (run_drift_check_for_version patterns backend 100 60 live_version (db live_version) []).0
    ≡ ok (some check_row)
unfolding run_drift_check_for_version compute_evaluation_update golden_set get_eval_set_version
    mock_backend evaluate_loaded ask_all user_content user_content_of iter_message_objects
    messages_of get message_objects has_role same_text
rechecks = refl

evaluates_live :
    (compute_evaluation_update patterns backend 100 (db live_version).tables live_version []).0
    ≡ ok (findings live_version)
unfolding compute_evaluation_update golden_set get_eval_set_version mock_backend evaluate_loaded
    ask_all user_content user_content_of iter_message_objects messages_of get message_objects
    has_role same_text
evaluates_live = refl

steady : IsSteady patterns backend 100 live_version
unfolding mock_backend
steady prompt s s' = refl

as_deployed :
    IsDeployedFrom patterns backend 100
      (db live_version).tables
      live_version
      (findings live_version)
      (db live_version).tables
      live_version
unfolding update_from
as_deployed = record { same_model = refl; same_version = refl; same_set = refl; baseline = refl }

steady-run_drift_check_example :
    let (_, db', _) =
      run_drift_check_for_version patterns backend 100 60 live_version (db live_version) [] in
    (check_row.new_regression_detected ≡ false)
    × (db'.notifications ≡ [])
    × (db'.drift_checks ≡ check_row ∷ [])
steady-run_drift_check_example =
    steady-run_drift_check patterns backend 100 (db live_version).tables (db live_version)
      live_version live_version [] [] 60 (findings live_version) check_row steady as_deployed
      evaluates_live rechecks

passes_over : (run_once patterns backend 100 60 (db live_version) []).0 ≡ ok (check_row ∷ [])
unfolding run_once run_checks deployed_versions sort_by_id is_deployed run_drift_check_for_version
    compute_evaluation_update golden_set get_eval_set_version mock_backend evaluate_loaded ask_all
    user_content user_content_of iter_message_objects messages_of get message_objects has_role
    same_text
passes_over = refl

run_once-Checked_example :
    let d = db live_version in
    (made : List Checking) × (check_row ∷ [] ≡ map (λ c. c.1) made)
    × Checked made d (run_once patterns backend 100 60 d []).1
    × (all (is_of_deployed (live_version ∷ [])) made ≡ true)
run_once-Checked_example =
    run_once-Checked patterns backend 100 60 (db live_version) [] (check_row ∷ []) passes_over

-- The tables without a golden set, and a report on the record that is asked.
abbrev no_sets : EvalSetTables
no_sets = record { eval_sets = []; eval_set_versions = [] }

create_eval_set_version_outcome_example :
    let (r, w') = create_eval_set_version patterns ((asked ∷ []) ∷ []) 1 0 3 (asked ∷ []) no_sets in
    (ApartFrom patterns (asked ∷ []) ((asked ∷ []) ∷ [])
      × ((row : EvalSetVersion) × (r ≡ ok row) × Created patterns 3 (asked ∷ []) no_sets row w'))
    ⊎ ((¬ ApartFrom patterns (asked ∷ []) ((asked ∷ []) ∷ []))
        × ((n : ℕ) × (r ≡ err (overlaps_validated_data n)))
        × (w'.eval_set_versions ≡ []))
create_eval_set_version_outcome_example =
    create_eval_set_version_outcome patterns ((asked ∷ []) ∷ []) 1 0 3 (asked ∷ []) no_sets

-- A record that asks something else.
abbrev other_record : Json
other_record = object (
    field messages_key
      (array (
        cons (object (field role_key (text user_role) (field content_key (text (codes "who")) end)))
          nil))
      end)

made_apart :
    (create_eval_set_version patterns ((other_record ∷ []) ∷ []) 1 0 3 (asked ∷ []) no_sets).0
    ≡ ok golden
unfolding create_eval_set_version register_eval_set overlaps validated_user_contents next_version
    get_latest_eval_set_version eval_user_contents seen_text user_content user_content_of
    iter_message_objects messages_of get message_objects has_role same_text get_field key_code strip
made_apart = refl

abbrev other_rows : List Row
other_rows = record { value = other_record; errors = h1_missing_required_field ∷ [] } ∷ []

other_errors : hard_errors patterns other_record ≡ ok (h1_missing_required_field ∷ [])
unfolding hard_errors shape_errors get_field is_array is_object get all_objects rule_errors
    messages_errors messages_of message_objects message_errors is_unhashable sorted_set has_error
    is_truthy key_code contains_text same_text strip word_count content_errors error_code
    has_boilerplate is_control_char is_empty text_errors has_role is_valid_role metadata_of
    misses_required
other_errors = refl

validates_other :
    validate_dataset_version patterns half (other_record ∷ []) golden.records
    ≡ ok (report_on patterns half golden.records other_rows)
unfolding validate_dataset_version check_and_report check_records
validates_other = rw (other_errors, check_records, validate_dataset_version, check_and_report) refl

create-validate_example : (report_on patterns half golden.records other_rows).leakage_overlaps ≡ 0
create-validate_example =
    create-validate patterns ((other_record ∷ []) ∷ []) 1 0 3 (asked ∷ []) no_sets golden [] []
      (other_record ∷ []) half (report_on patterns half golden.records other_rows) made_apart refl
      validates_other
