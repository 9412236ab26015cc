-- ===== src/Tests/Datasets.antt =====
-- Dataset versions, their pins, and a run that is created on one of them.
use defnex_mlops.Idempotency.{store_response}
use defnex_mlops.RunCreation.{remember_response}
use defnex_mlops.RunCreation.{check_report}
use defnex_mlops.Idempotency.{find_key}
use defnex_mlops.Text.{same_text}
use defnex_mlops.Json.{get}
use defnex_mlops.Datasets.{register_dataset}
use defnex_mlops.Datasets.{get_dataset_version}
use defnex_mlops.Base.{ℕ, Option, ap, ◌∙◌, ◌∷◌, [], ◌≡◌, ok, err, none, some, refl, false, arith}
use defnex_mlops.Text.{Text, codes}
use defnex_mlops.Json.{Json, end, text, number}
use defnex_mlops.Validation.Report.{
  report_on, ValidationReport, pass, mark_leaks, mark_duplicates, decide_gate, is_repeated,
  remember, leaks, normalized_pair, pair_from, user_content, user_content_of, eval_user_contents,
  seen_text,
}
use defnex_mlops.Validation.{iter_message_objects, messages_of, message_objects, has_role}
use defnex_mlops.Json.{get}
use defnex_mlops.Text.{same_text}
use defnex_mlops.Validation.Gate.{IsTrainable}
use defnex_mlops.Training.{normal}
use defnex_mlops.Datasets.{get_dataset_version}
use defnex_mlops.Idempotency.{get_cached_response}
use defnex_mlops.Datasets.{
  DatasetVersion, DatasetTables, DatasetError, InsertAttempt, processed, external, find_version,
  create_dataset_version_from_feedback, delete_dataset_version, insert_version,
}
use defnex_mlops.Datasets.Immutable.{Reach, start, next, inserts, deletes, Reach-KeepsProcessed}
use defnex_mlops.Datasets.Creation.{
  AllApproved, FromFeedback, create_dataset_version_from_feedback_outcome,
}
use defnex_mlops.Datasets.Pinning.{
  Conversions, DatasetPin, Resolved, pop_field, set_field, hf_dataset_key, dataset_local_path_key,
  pinned,
}
use defnex_mlops.RunCreation.{
  StoredReport, PinnedRun, RunRequest, CreationDb, create_checked, create_training_run, new_run,
  get_latest_validation_report,
}
use defnex_mlops.RunCreation.Gate.{create_checked-IsTrainable}
use defnex_mlops.RunCreation.Replay.{create_training_run-Replayed}
use defnex_mlops.Tests.Validation.{patterns, half, asked, comments, checked, validates}

abbrev stored : DatasetVersion
stored = record {
  id = 1;
  dataset_id = 5;
  version = 1;
  status = processed;
  source_type = external 0;
  source_feedback_ids = none;
  source_url_or_hf_id = none;
  source_commit_or_snapshot_date = none;
  source_format = 3;
  row_count = some 2;
  created_at = 0;
  canonical_file_uri = some 9;
}

abbrev tables : DatasetTables
tables = record { datasets = 5 ∷ []; dataset_versions = stored ∷ [] }

abbrev attempt : InsertAttempt
attempt = record { key = 2; rival = λ w. w; is_locked = false }

-- Another version is inserted, and then a deletion of the first is tried.
abbrev later_tables : DatasetTables
later_tables = (insert_version stored (attempt ∷ []) tables).1

still_stored : find_version 1 later_tables.dataset_versions ≡ some stored
unfolding insert_version get_dataset_version register_dataset
still_stored = refl

abbrev last_tables : DatasetTables
last_tables = (delete_dataset_version stored later_tables).1

reached : Reach tables last_tables
reached =
    next later_tables last_tables
      (next tables later_tables start (inserts stored (attempt ∷ []) (λ w k r h p. h, tt) refl))
      (deletes stored still_stored refl)

Reach-KeepsProcessed_example : find_version 1 last_tables.dataset_versions ≡ some stored
Reach-KeepsProcessed_example = Reach-KeepsProcessed tables last_tables reached 1 stored refl refl

create_dataset_version_from_feedback_outcome_example :
    let ids = codes "f" ∷ [] in
    let (result, w') =
      create_dataset_version_from_feedback 5 ids 3 comments 40 (attempt ∷ []) tables in
    ((r : DatasetVersion) → result ≡ ok r → FromFeedback ids comments r w')
    × ((¬ AllApproved ids comments) → (e : DatasetError) × (result ≡ err e) × (w' ≡ tables))
create_dataset_version_from_feedback_outcome_example =
    create_dataset_version_from_feedback_outcome 5 (codes "f" ∷ []) 3 comments 40 (attempt ∷ [])
      tables

-- The conversions of the values that a pin holds.
abbrev str_of : Json → Text
str_of (text s) = s
str_of _ = []

abbrev int_of : Json → Option ℕ
int_of (number n) = some n
int_of _ = none

abbrev conversions : Conversions
conversions = record {
  str_of = str_of;
  int_of = int_of;
  str_text = λ s. refl;
  int_number = λ n. refl;
}

abbrev pin : DatasetPin
pin = record {
  dataset_id = codes "d";
  dataset_version = 1;
  file_uri = codes "s3://d";
  content_hash = 7 ∷ [];
  source_format = codes "jsonl";
  row_count = number 2;
}

-- A number is spelled by one character.
abbrev spell : ℕ → Text
spell n = n ∷ []

abbrev passed : ValidationReport
passed = record {
  record_count = 2;
  valid_count = 2;
  invalid_count = 0;
  duplicate_count = 0;
  leakage_overlaps = 0;
  rows = checked;
  gate_decision = pass;
}

reports_pass : report_on patterns half [] checked ≡ passed
unfolding report_on mark_leaks mark_duplicates decide_gate is_repeated remember leaks
    normalized_pair pair_from user_content user_content_of eval_user_contents iter_message_objects
    messages_of message_objects has_role get same_text seen_text
reports_pass = refl

abbrev report : StoredReport
report = record {
  id = 1;
  dataset_version_id = 1;
  run_at = 10;
  content_hash = 4 ∷ [];
  report = passed;
}

abbrev creation_db : CreationDb
creation_db = record { dataset_versions = stored ∷ []; reports = report ∷ []; runs = []; keys = [] }

abbrev run_request : RunRequest
run_request = record {
  dataset_id = 5;
  dataset_version = 1;
  model_id = 7;
  base_model = 5;
  training_config = end;
  triggered_by = none;
  compute_resource_id = none;
  priority = normal;
}

abbrev new_one : PinnedRun
new_one = new_run spell 30 50 stored (report ∷ []) run_request

creates : (create_checked spell 30 50 run_request creation_db).0 ≡ ok new_one
unfolding create_checked get_dataset_version check_report get_latest_validation_report
creates = refl

found_report :
    (k : ℕ) (x r : StoredReport) → get_latest_validation_report k (x ∷ []) ≡ some r → x ≡ r
unfolding get_latest_validation_report
found_report k x r h = ground arith

create_checked-IsTrainable_example : IsTrainable patterns [] (asked ∷ asked ∷ [])
create_checked-IsTrainable_example =
    create_checked-IsTrainable spell 30 50 run_request creation_db new_one patterns half
      (asked ∷ asked ∷ []) [] creates
      (λ v latest f g.
        validates ∙ ap ok reports_pass ∙ ap (λ x. ok x.report) (found_report v.id report latest g))

abbrev resolved : Resolved
resolved = record {
  config =
      pop_field hf_dataset_key
        (set_field dataset_local_path_key (text (codes "train.jsonl")) new_one.config);
  source = pinned;
  content = some (1 ∷ []);
}

creates_once : (create_training_run spell (some 8) 30 50 run_request creation_db).0 ≡ ok new_one
unfolding create_training_run get_cached_response find_key remember_response create_checked
    get_dataset_version check_report get_latest_validation_report store_response
creates_once = refl

no_key : (get_cached_response (8, 0) 50 creation_db.keys).0 ≡ none
unfolding get_cached_response find_key
no_key = refl

create_training_run-Replayed_example :
    let db' = (create_training_run spell (some 8) 30 50 run_request creation_db).1 in
    create_training_run spell (some 8) 31 900 run_request db' ≡ (ok new_one, db')
create_training_run-Replayed_example =
    create_training_run-Replayed spell 8 30 31 50 900 run_request run_request creation_db new_one
      no_key creates_once (omega arith)
