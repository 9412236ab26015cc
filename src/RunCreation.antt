-- ===== src/RunCreation.antt =====
-- The creation of a training run: `create_training_run` of app/services/training_service.py, and the
-- endpoint POST /training-runs of app/api/training.py with its idempotent replay and its gate. The
-- request's user was authenticated, and the rate limit is left out. An idempotency key `k` of this
-- endpoint stands as the pair of `k` and 0, which is no deploy's, for ids of versions start at 1.
pub mod Gate
pub mod Replay
use defnex_mlops.Base.{
  ℕ, Bool, true, false, List, Option, [], ◌∷◌, ◌++◌, ◌==◌, ◌||◌, ◌&&◌, if◌then◌else◌, none, some,
  ltb, Result, ok, err, get_or, Action,
}
use defnex_mlops.Text.{Text}
use defnex_mlops.Json.{Fields, Json, null, number}
use defnex_mlops.Validation.Report.{ValidationReport, GateDecision, pass, needs_review, fail}
use defnex_mlops.Training.{TrainingRun, Priority, pending}
use defnex_mlops.Idempotency.{
  IdempotencyKey, CachedResponse, StoreError, get_cached_response, store_response,
  default_ttl_seconds,
}
use defnex_mlops.Datasets.{DatasetVersion, get_dataset_version}
use defnex_mlops.Datasets.Pinning.{DatasetPin, with_pin, jsonl}

-- A row of `validation_reports`, with the report that it holds.
pub record StoredReport : Type 0 where
  pub id : ℕ
  pub dataset_version_id : ℕ
  pub run_at : ℕ
  pub content_hash : Text
  pub report : ValidationReport

-- A run with the config that its `training_config` holds.
pub record PinnedRun : Type 0 where
  pub run : TrainingRun
  pub config : Fields

-- `TrainingRunCreateRequest`
pub record RunRequest : Type 0 where
  pub dataset_id : ℕ
  pub dataset_version : ℕ
  pub model_id : ℕ
  pub base_model : ℕ
  pub training_config : Fields
  pub triggered_by : Option ℕ
  pub compute_resource_id : Option ℕ
  pub priority : Priority

pub record CreationDb : Type 0 where
  pub dataset_versions : List DatasetVersion
  pub reports : List StoredReport
  pub runs : List PinnedRun
  pub keys : List (IdempotencyKey PinnedRun)

pub data CreationError : Type 0 where
  dataset_not_found validation_required validation_failed validation_needs_review key_taken :
      CreationError

-- Whether `(r.run_at, r.id)` is after that of the other report.
abbrev pub is_later : StoredReport → StoredReport → Bool
is_later r q = ltb q.run_at r.run_at || (q.run_at == r.run_at && ltb q.id r.id)

-- `get_latest_validation_report`
unfoldable pub get_latest_validation_report : ℕ → List StoredReport → Option StoredReport
get_latest_validation_report k [] = none
get_latest_validation_report k (r ∷ t) =
    let rest = get_latest_validation_report k t in
    if r.dataset_version_id == k
    then elim rest [ none ↦ some r | some q ↦ if is_later q r then some q else some r ]
    else rest

abbrev pub report_hash : Option StoredReport → Text
report_hash none = []
report_hash (some r) = r.content_hash

abbrev pub number_or_null : Option ℕ → Json
number_or_null none = null
number_or_null (some n) = number n

-- `a or b`, for texts
abbrev pub text_or : Text → Text → Text
text_or [] b = b
text_or (c ∷ s) b = c ∷ s

abbrev pub spelled : (ℕ → Text) → Option ℕ → Text
spelled spell none = []
spelled spell (some n) = spell n

abbrev pub trains_on : ValidationReport → Result CreationError Unit
trains_on report = elim report.gate_decision [
  | fail ↦ err validation_failed
  | needs_review ↦ err validation_needs_review
  | pass ↦ if report.record_count == 0 then err validation_failed else ok tt
]

-- The gate of the endpoint.
unfoldable pub check_report : Option StoredReport → Result CreationError Unit
check_report none = err validation_required
check_report (some r) = trains_on r.report

-- `spell` is the text that a number stands for.
module _ (spell : ℕ → Text) where
  -- `snapshot_pin`
  unfoldable pub snapshot_pin : DatasetVersion → List StoredReport → DatasetPin
  snapshot_pin v reports = record {
    dataset_id = spell v.dataset_id;
    dataset_version = v.version;
    file_uri = spelled spell v.canonical_file_uri;
    content_hash = report_hash (get_latest_validation_report v.id reports);
    source_format = text_or (spell v.source_format) jsonl;
    row_count = number_or_null v.row_count;
  }

  -- `create_training_run` of the service, as the row that it adds; `k` is the id that is drawn. The
  -- number in the row's `training_config` stands for the config with its id.
  unfoldable pub new_run : ℕ → ℕ → DatasetVersion → List StoredReport → RunRequest → PinnedRun
  new_run k now v reports q = record {
    run = record {
      training_run_id = k;
      dataset_version_id = v.id;
      model_id = q.model_id;
      base_model = q.base_model;
      training_config = k;
      status = pending;
      triggered_by = q.triggered_by;
      created_at = now;
      started_at = none;
      finished_at = none;
      heartbeat_at = none;
      current_epoch = none;
      current_step = none;
      train_loss = none;
      eval_loss = none;
      artifact_uri = none;
      external_job_id = none;
      error_message = none;
      compute_resource_id = q.compute_resource_id;
      retry_of = none;
      retry_count = 0;
      priority = q.priority;
    };
    config = with_pin q.training_config (snapshot_pin v reports);
  }

  -- The part of the endpoint between the lookup of the key and the store of the response.
  unfoldable pub create_checked : ℕ → ℕ → RunRequest → Action CreationDb CreationError PinnedRun
  create_checked k now q db =
      elim (get_dataset_version q.dataset_id q.dataset_version db.dataset_versions) [
        | none ↦ (err dataset_not_found, db)
        | some v ↦ elim (check_report (get_latest_validation_report v.id db.reports)) [
          | err e ↦ (err e, db)
          | ok _ ↦
              let r = new_run k now v db.reports q in (ok r, record db { runs = db.runs ++ r ∷ [] })
        ]
      ]

  abbrev pub with_keys : List (IdempotencyKey PinnedRun) → CreationDb → CreationDb
  with_keys keys db = record db { keys = keys }

  unfoldable pub remember_response :
      ℕ
      → ℕ
      → Result CreationError PinnedRun × CreationDb
      → Result CreationError PinnedRun × CreationDb
  remember_response key now (err e, db) = (err e, db)
  remember_response key now (ok r, db) =
      let (stored, keys) = store_response (key, 0) 1 201 r default_ttl_seconds now db.keys in
      (elim stored [ err _ ↦ err key_taken | ok _ ↦ ok r ], with_keys keys db)

  -- POST /training-runs
  unfoldable pub create_training_run :
      Option ℕ → ℕ → ℕ → RunRequest → Action CreationDb CreationError PinnedRun
  create_training_run none k now q db = create_checked k now q db
  create_training_run (some key) k now q db =
      let (cached, keys) = get_cached_response (key, 0) now db.keys in
      elim cached [
        | some c ↦ (ok c.body, with_keys keys db)
        | none ↦ remember_response key now (create_checked k now q (with_keys keys db))
      ]
