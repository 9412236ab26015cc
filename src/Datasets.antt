-- ===== src/Datasets.antt =====
-- The versions of datasets: app/models/dataset.py and app/services/dataset_service.py. Identifiers
-- and free texts are numbers, the ids of feedback are texts; a listing for display is left out.
pub mod Immutable
pub mod Creation
pub mod Pinning
pub mod Pins
use defnex_mlops.Base.{
  ℕ, Bool, true, false, List, Option, [], ◌∷◌, ◌++◌, ◌+◌, ◌==◌, ◌&&◌, ◌||◌, if◌then◌else◌, contains,
  none, some, ltb, length, Action, Result, ok, err, is_some, is_none, keep, not,
}
use defnex_mlops.Text.{Text, same_text}
use defnex_mlops.Feedback.{Feedback, get_feedback, is_approved}

pub data DatasetStatus : Type 0 where
  unprocessed processed : DatasetStatus

-- `source_type`
pub data SourceType : Type 0 where
  from_feedback : SourceType
  external : ℕ → SourceType

pub record DatasetVersion : Type 0 where
  pub id : ℕ
  pub dataset_id : ℕ
  pub version : ℕ
  pub status : DatasetStatus
  pub source_type : SourceType
  pub source_feedback_ids : Option (List Text)
  pub source_url_or_hf_id : Option ℕ
  pub source_commit_or_snapshot_date : Option ℕ
  pub source_format : ℕ
  pub row_count : Option ℕ
  pub created_at : ℕ
  pub canonical_file_uri : Option ℕ

-- The tables `datasets` and `dataset_versions`.
pub record DatasetTables : Type 0 where
  pub datasets : List ℕ
  pub dataset_versions : List DatasetVersion

pub data DatasetError : Type 0 where
  no_version_left cannot_update cannot_delete : DatasetError
  feedback_not_found feedback_not_approved : List Text → DatasetError

-- `DatasetVersionCreateRequest`
pub record VersionRequest : Type 0 where
  pub source_type : ℕ
  pub source_dataset : Option ℕ
  pub source_commit_or_snapshot_date : Option ℕ
  pub source_format : ℕ

-- `register_dataset`
unfoldable pub register_dataset : ℕ → DatasetTables → DatasetTables
register_dataset k w =
    if contains k w.datasets then w else record w { datasets = w.datasets ++ k ∷ [] }

-- `db.get(DatasetVersion, id)`
abbrev pub find_version : ℕ → List DatasetVersion → Option DatasetVersion
find_version k [] = none
find_version k (r ∷ t) = if k == r.id then some r else find_version k t

abbrev pub update_version :
    ℕ → (DatasetVersion → DatasetVersion) → List DatasetVersion → List DatasetVersion
update_version k f [] = []
update_version k f (r ∷ t) = if k == r.id then f r ∷ t else r ∷ update_version k f t

abbrev pub delete_version : ℕ → List DatasetVersion → List DatasetVersion
delete_version k [] = []
delete_version k (r ∷ t) = if k == r.id then t else r ∷ delete_version k t

-- `get_dataset_version`
unfoldable pub get_dataset_version : ℕ → ℕ → List DatasetVersion → Option DatasetVersion
get_dataset_version k v [] = none
get_dataset_version k v (r ∷ t) =
    if r.dataset_id == k && r.version == v then some r else get_dataset_version k v t

-- `latest or 0`
abbrev pub latest_version : ℕ → List DatasetVersion → ℕ
latest_version k [] = 0
latest_version k (r ∷ t) =
    let rest = latest_version k t in
    if r.dataset_id == k then (if ltb rest r.version then r.version else rest) else rest

-- What happens around one attempt of an insert: the key that the row would get, what other
-- transactions commit between its query and its insert, and whether the database is locked then.
pub record InsertAttempt : Type 0 where
  pub key : ℕ
  pub rival : DatasetTables → DatasetTables
  pub is_locked : Bool

abbrev pub numbered : DatasetVersion → ℕ → ℕ → DatasetVersion
numbered template k v = record template { id = k; version = v }

abbrev pub append_version : DatasetVersion → DatasetTables → DatasetTables
append_version r w = record w { dataset_versions = w.dataset_versions ++ r ∷ [] }

-- The retry loop: a locked database, or a number or a key that is taken, rolls an attempt back.
unfoldable pub insert_version :
    DatasetVersion
    → List InsertAttempt
    → DatasetTables
    → Result DatasetError DatasetVersion × DatasetTables
insert_version template [] w = (err no_version_left, w)
insert_version template (a ∷ attempts) w =
    let v = latest_version template.dataset_id w.dataset_versions + 1 in
    let now = a.rival w in
    let retried = insert_version template attempts now in
    let row = numbered template a.key v in
    if a.is_locked
      || (is_some (get_dataset_version template.dataset_id v now.dataset_versions)
          || is_some (find_version a.key now.dataset_versions))
    then retried
    else (ok row, append_version row (register_dataset template.dataset_id now))

-- `create_dataset_version`
unfoldable pub create_dataset_version :
    ℕ
    → VersionRequest
    → ℕ
    → List InsertAttempt
    → DatasetTables
    → Result DatasetError DatasetVersion × DatasetTables
create_dataset_version k request now = insert_version (record {
  id = 0;
  dataset_id = k;
  version = 0;
  status = processed;
  source_type = external request.source_type;
  source_feedback_ids = none;
  source_url_or_hf_id = request.source_dataset;
  source_commit_or_snapshot_date = request.source_commit_or_snapshot_date;
  source_format = request.source_format;
  row_count = none;
  created_at = now;
  canonical_file_uri = none;
})

-- `[fid for fid in feedback_ids if fid not in found_ids]`
unfoldable pub missing_ids : List Text → List Feedback → List Text
missing_ids ids rows = keep (λ i. is_none (get_feedback i rows)) ids

-- The ids of the selected rows that are not APPROVED.
unfoldable pub not_approved_ids : List Text → List Feedback → List Text
not_approved_ids [] rows = []
not_approved_ids (i ∷ ids) rows = elim (get_feedback i rows) [
  | none ↦ not_approved_ids ids rows
  | some f ↦
      if is_approved f.curation_status
      then not_approved_ids ids rows
      else i ∷ not_approved_ids ids rows
]

unfoldable pub feedback_template : ℕ → List Text → ℕ → ℕ → DatasetVersion
feedback_template k ids source_format now = record {
  id = 0;
  dataset_id = k;
  version = 0;
  status = processed;
  source_type = from_feedback;
  source_feedback_ids = some ids;
  source_url_or_hf_id = none;
  source_commit_or_snapshot_date = none;
  source_format = source_format;
  row_count = some (length ids);
  created_at = now;
  canonical_file_uri = none;
}

-- `create_dataset_version_from_feedback`
unfoldable pub create_dataset_version_from_feedback :
    ℕ
    → List Text
    → ℕ
    → List Feedback
    → ℕ
    → List InsertAttempt
    → DatasetTables
    → Result DatasetError DatasetVersion × DatasetTables
create_dataset_version_from_feedback k ids source_format rows now attempts w =
    elim (missing_ids ids rows) [
      | i ∷ is ↦ (err (feedback_not_found (i ∷ is)), w)
      | [] ↦ elim (not_approved_ids ids rows) [
        | i ∷ is ↦ (err (feedback_not_approved (i ∷ is)), w)
        | [] ↦ insert_version (feedback_template k ids source_format now) attempts w
      ]
    ]

-- `version.status in _IMMUTABLE_STATUSES`
unfoldable pub is_immutable : DatasetStatus → Bool
is_immutable processed = true
is_immutable unprocessed = false

-- `update_dataset_version`, with the assignments of its fields.
unfoldable pub update_dataset_version :
    DatasetVersion → (DatasetVersion → DatasetVersion) → Action DatasetTables DatasetError Unit
update_dataset_version r f w =
    if is_immutable r.status
    then (err cannot_update, w)
    else (ok tt, record w { dataset_versions = update_version r.id f w.dataset_versions })

-- `delete_dataset_version`
unfoldable pub delete_dataset_version : DatasetVersion → Action DatasetTables DatasetError Unit
delete_dataset_version r w =
    if is_immutable r.status
    then (err cannot_delete, w)
    else (ok tt, record w { dataset_versions = delete_version r.id w.dataset_versions })
