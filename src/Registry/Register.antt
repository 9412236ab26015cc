-- ===== src/Registry/Register.antt =====
-- The registration of a finished training run: `register_model_version` in
-- app/services/model_service.py. The storage that moves the staged output into its place is the
-- parameter `finalize_version`: from the row and the staging directory to the final URI and checksum,
-- or the text of what it raises.
use defnex_mlops.Base.{
  ◌∷◌, if◌then◌else◌, ℕ, List, Result, true, Bool, if◌then◌else◌, some, Action, contains, false,
  none, [], err, ok,
}
use defnex_mlops.Registry.{ModelVersion, Versions, registered, update}
use defnex_mlops.Training.{RunStatus, TrainingRun, completed}
use defnex_mlops.Registry.Lifecycle.{Attempt, allocate_version}

-- The rows of `models`, by their ids, and those of `model_versions`.
pub record ModelTables : Type 0 where
  pub models : List ℕ
  pub versions : Versions

pub data RegisterError : Type 0 where
  not_completed no_version_left : RegisterError
  storage_error : ℕ → RegisterError

unfoldable pub is_completed : RunStatus → Bool
is_completed completed = true
is_completed _ = false

-- `_ensure_model_row`; whoever inserts the row, it is there afterwards.
unfoldable pub ensure_model_row : ℕ → List ℕ → List ℕ
ensure_model_row m models = if contains m models then models else m ∷ models

-- The version that is inserted, but for its key, number and status.
abbrev pub registered_version : TrainingRun → ModelVersion
registered_version run = record {
  id = 0;
  model_id = run.model_id;
  version = 0;
  status = registered;
  training_run_id = run.training_run_id;
  base_model = run.base_model;
  artifacts = record { is_adapter = true; uri = run.artifact_uri; checksum = none } ∷ [];
  eval_loss_trend = none;
  qualitative_comparison = none;
  general_domain_regression_check = none;
  eval_set_id = none;
  eval_set_version = none;
  evaluation_requested = false;
  promotion_decision_ref = none;
}

abbrev pub with_artifact : ℕ → ℕ → ModelVersion → ModelVersion
with_artifact uri checksum r = record r {
  artifacts = record { is_adapter = true; uri = some uri; checksum = some checksum } ∷ [];
}

abbrev pub with_versions : Versions → ModelTables → ModelTables
with_versions t tables = record tables { versions = t }

-- `register_model_version`, with the staged output of the run: the row, and the final URI that the
-- run gets.
unfoldable pub register_model_version :
    (ModelVersion → ℕ → Result ℕ (ℕ × ℕ))
    → List Attempt
    → TrainingRun
    → ℕ
    → Action ModelTables RegisterError (ModelVersion × ℕ)
register_model_version finalize_version attempts run staging_dir tables =
    elim (is_completed run.status) [
      | false ↦ (err not_completed, tables)
      | true ↦
          let known = record tables { models = ensure_model_row run.model_id tables.models } in
          let (allocated, t) = allocate_version (registered_version run) attempts tables.versions in
          elim allocated [
            | none ↦ (err no_version_left, with_versions t known)
            | some r ↦ elim (finalize_version r staging_dir) [
              | err text ↦ (err (storage_error text), with_versions t known)
              | ok (uri, checksum) ↦ (
                ok (with_artifact uri checksum r, uri),
                with_versions (update r.id (with_artifact uri checksum) t) known,
              )
            ]
          ]
    ]
