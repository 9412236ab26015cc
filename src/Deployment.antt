-- ===== src/Deployment.antt =====
-- Moving the deployment pointer (app/services/deployment_service.py). The database tables that a
-- deploy touches and the state of the serving backend make up a `World`; the rows are the session's
-- view of them, and a failed flush rolls the session back.
--
-- Logs, metrics and webhook alerts are left out. Identifiers and clock readings are arguments.
pub mod Frame
pub mod Pointer
pub mod Success
pub mod Queries
pub mod Resolve
use defnex_mlops.Base.{
  ℕ, zero, suc, ◌+◌, ◌≡◌, Bool, true, false, not, ◌&&◌, Option, none, some, List, [], ◌∷◌, ◌++◌,
  map, ◌==◌, if◌then◌else◌, get_or, Result, ok, err, Action, pure, raise, gets, modify, raise_if,
  ◌>>=◌, ◌>>◌, length, all, leb, ltb,
}
use defnex_mlops.Registry.{
  EvaluationObject, Status, staging, deployed, retired, Artifact, ModelVersion, Versions,
  set_status, deployed_model_version, other_deployed, count_deployed,
}
use defnex_mlops.Serving.{
  ServingError, InferenceError, GenerationResult, ServingBackend, Settings, get_serving_backend,
  validate_base_model,
}
use defnex_mlops.GpuLock.{gpu_lock}
use defnex_mlops.World.{AuditAction, AuditLog, World, Deployment, pointer_moved}

pub data DeployError : Type 0 where
  artifact_checksum_error base_model_mismatch serving_error smoke_test_error deployed_conflict
        lock_timeout :
      DeployError

-- `LocalFilesystemArtifactStorage`: the checksum recorded in `metadata.json`, and that of the bytes.
pub record ArtifactStorage : Type 0 where
  pub recorded : ℕ → Option ℕ
  pub compute_checksum : ℕ → ℕ

unfoldable pub verify_checksum : ArtifactStorage → ℕ → Bool
verify_checksum storage uri = elim (storage.recorded uri) [
  | none ↦ true
  | some checksum ↦ storage.compute_checksum uri == checksum
]

-- `verify_artifact_checksum`: an artifact without a `uri` is skipped.
unfoldable pub verify_artifact_checksum : ArtifactStorage → List Artifact → Bool
unfolding verify_checksum
verify_artifact_checksum storage [] = true
verify_artifact_checksum storage (a ∷ artifacts) =
    elim a.uri [ none ↦ true | some uri ↦ verify_checksum storage uri ]
    && verify_artifact_checksum storage artifacts

-- What the process runs with.
pub record Deps (S : Type 0) : Type 0 where
  pub settings : Settings
  pub backend : ServingBackend S
  pub storage : ArtifactStorage

-- The arguments of one deploy, and what happens around it: `held` is the GPU lock's use by others,
-- `rival` is what other transactions commit between the query for the previous version and the
-- flush that moves the pointer.
pub record Call : Type 0 where
  pub environment : Option ℕ
  pub actor_id : Option ℕ
  pub action : AuditAction
  pub reason : Option ℕ
  pub deployment_id : ℕ
  pub now : ℕ
  pub held : ℕ → Bool
  pub rival : Versions → Versions

module _ {S : Type 0} where
  -- A call of the backend; its exception is raised as `e`.
  abbrev serve : {E A : Type 0} → DeployError → Action S E A → Action (World S) DeployError A
  serve e m w =
      let (r, s) = m w.serving in (elim r [ ok a ↦ ok a | err _ ↦ err e ], record w { serving = s })

-- `previous.version if previous else None`
abbrev pub version_of : Option ModelVersion → Option ℕ
version_of none = none
version_of (some p) = some p.version

module _ {S : Type 0} (d : Deps S) where
  -- `backend.unload` under `except Exception`: it is logged, never raised.
  unload_quietly : ℕ → ℕ → ℕ → Action (World S) DeployError Unit
  unload_quietly url m v w =
      let (_, s) = d.backend.unload url m v w.serving in (ok tt, record w { serving = s })

  -- The two ways in which `_run_smoke_test` fails: the adapter is unloaded again first.
  unload_after_smoke_failure : ℕ → ModelVersion → Action (World S) DeployError Unit
  unfolding unload_quietly
  unload_after_smoke_failure url mv = do
    unload_quietly url mv.model_id mv.version
    raise smoke_test_error

  smoke_verdict :
      ℕ → ModelVersion → Result InferenceError GenerationResult → Action (World S) DeployError Unit
  unfolding unload_after_smoke_failure
  smoke_verdict url mv (err _) = unload_after_smoke_failure url mv
  smoke_verdict url mv (ok output) =
      if ltb (length output.text) d.settings.inference_smoke_min_chars
      then unload_after_smoke_failure url mv
      else pure tt

  -- `_run_smoke_test`
  unfoldable pub run_smoke_test : ℕ → ModelVersion → Action (World S) DeployError Unit
  unfolding smoke_verdict
  run_smoke_test url mv w =
      let (r, s) =
        d.backend.generate url d.settings.inference_smoke_prompt mv.model_id mv.version w.serving in
      smoke_verdict url mv r (record w { serving = s })

  -- The part of `_deploy_locked` before any change of the database.
  unfoldable pub load_and_check : ℕ → ModelVersion → Action (World S) DeployError Unit
  unfolding run_smoke_test
  load_and_check url mv = do
    raise_if (not (verify_artifact_checksum d.storage mv.artifacts)) artifact_checksum_error
    raise_if (not (validate_base_model d.settings mv)) base_model_mismatch
    serve serving_error (d.backend.deploy url mv)
    if d.settings.inference_smoke_enabled then run_smoke_test url mv else pure tt

  -- `previous` is unloaded, best effort, and marked RETIRED.
  unfoldable pub retire_previous : ℕ → Option ModelVersion → Action (World S) DeployError Unit
  unfolding unload_quietly
  retire_previous url none = pure tt
  retire_previous url (some p) = do
    unload_quietly url p.model_id p.version
    modify (λ w. record w { versions = set_status p.id retired w.versions })

  -- The flush that moves the pointer. A second DEPLOYED row of the model breaks the partial unique
  -- index: the session rolls back to what is committed, and the loaded adapter is unloaded.
  unfoldable pub flush_pointer :
      ℕ → ModelVersion → Call → Versions → Action (World S) DeployError Deployment
  unfolding unload_quietly
  flush_pointer url mv c committed w =
      let moved = set_status mv.id deployed w.versions in
      let row : Deployment = record {
        deployment_id = c.deployment_id;
        model_id = mv.model_id;
        model_version = mv.version;
        environment = get_or c.environment d.settings.deployment_environment;
        deployed_at = c.now;
      } in
      if leb (count_deployed mv.model_id moved) 1
      then (ok row, record w { versions = moved; deployments = w.deployments ++ row ∷ [] })
      else (unload_quietly url mv.model_id mv.version >> raise deployed_conflict)
          (record w { versions = committed })

  -- The audit row of a deploy or a rollback.
  unfoldable pub audit_row : ModelVersion → Call → Option ModelVersion → AuditLog
  audit_row mv c previous = record {
    actor_id = c.actor_id;
    action = c.action;
    model_id = mv.model_id;
    version = mv.version;
    change =
        pointer_moved (version_of previous) mv.version
          (get_or c.environment d.settings.deployment_environment);
    reason = c.reason;
  }

  -- The part of `_deploy_locked` from the retirement of `previous` to the audit row.
  unfoldable pub move_pointer :
      ℕ
      → ModelVersion
      → Call
      → Option ModelVersion
      → Action (World S) DeployError (Deployment × Option ModelVersion)
  move_pointer url mv c previous = do
    modify (λ w. record w { versions = c.rival w.versions })
    committed ← gets (λ w. w.versions)
    retire_previous url previous
    row ← flush_pointer url mv c committed
    modify (λ w. record w { audit = w.audit ++ audit_row mv c previous ∷ [] })
    pure (row, previous)

  -- `_deploy_locked`: the deployment row and the version that was superseded.
  unfoldable pub deploy_locked :
      ModelVersion → Call → Action (World S) DeployError (Deployment × Option ModelVersion)
  deploy_locked mv c = do
    previous ← gets (λ w. other_deployed mv.model_id mv.id w.versions)
    let url = get_serving_backend d.settings c.environment
    load_and_check url mv
    move_pointer url mv c previous

  -- `deploy`: a vLLM deploy runs under the GPU lock.
  unfoldable pub deploy :
      ModelVersion → Call → Action (World S) DeployError (Deployment × Option ModelVersion)
  deploy mv c =
      if d.settings.serving_backend_is_vllm
      then elim (gpu_lock c.held d.settings.gpu_lock_timeout c.now) [
        | none ↦ raise lock_timeout
        | some _ ↦ deploy_locked mv c
      ]
      else deploy_locked mv c
