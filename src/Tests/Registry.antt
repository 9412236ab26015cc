-- ===== src/Tests/Registry.antt =====
-- Deploys, decisions and the staging ladder on the registry of the test data.
use defnex_mlops.Base.{ℕ, refl, none, ◌≡◌, ◌≤◌, arith, err, ok, some, ◌∙◌, ◌⊎◌}
use mathlib.Core.Path.{subst}
use native.Mathlib.Decide.{ℕ_discrete}
use defnex_mlops.Tests.Data.{
  registry, contended, deps, candidate, fresh, gate, settings, world, call, request, live,
}
use defnex_mlops.Registry.Lookup.{IsValid, find-set_status_self, find-set_status_ne}
use defnex_mlops.Deployment.Pointer.{Interferes, deploy-IsValid}
use defnex_mlops.Deployment.Frame.{deploy-Aborted, Aborted}
use defnex_mlops.Deployment.Success.{deploy-Deployed, Deployed, history_row}
use defnex_mlops.Promotion.Staging.{stage_deploy_registry}
use defnex_mlops.Promotion.Gate.{create_decision_outcome, Recorded, Refusal}
use defnex_mlops.Registry.{
  Status, is_deployed, Versions, count_deployed, other_deployed, retired, ModelVersion, deployed,
  find, set_status, staging, with_status,
}
use defnex_mlops.Deployment.{
  deploy, load_and_check, deploy_locked, deployed_conflict, smoke_test_error,
  verify_artifact_checksum, move_pointer, retire_previous, flush_pointer,
}
use defnex_mlops.World.{Deployment, PromotionDecision}
use defnex_mlops.Serving.{get_serving_backend, validate_base_model, mock_backend}
use defnex_mlops.Promotion.{PromotionError, stage_deploy, create_decision, promote_it}
use defnex_mlops.GpuLock.{gpu_lock}

one_deployed_registry : (m : ℕ) → count_deployed m registry ≤ 1
unfolding is_deployed
one_deployed_registry m = ground arith

pub registry-IsValid : IsValid registry
registry-IsValid = record {
  keyed = (refl, (refl, (refl, tt)));
  one_deployed = one_deployed_registry;
}

one_deployed_rival : (m : ℕ) → count_deployed m (contended.rival registry) ≤ 1
unfolding is_deployed
one_deployed_rival m = ground arith

rival-IsValid : IsValid (contended.rival registry)
rival-IsValid = record { keyed = (refl, (refl, (refl, tt))); one_deployed = one_deployed_rival }

-- A status change keeps the rows and their models.
set_status_keeps :
    (j : ℕ) (s : Status) (t : Versions) (k : ℕ) (r : ModelVersion)
    → find k t ≡ some r
    → (r' : ModelVersion) × (find k (set_status j s t) ≡ some r') × (r'.model_id ≡ r.model_id)
set_status_keeps j s t k r h = elim (ℕ_discrete k j) [
  | yes e ↦ (
    with_status s r,
    subst (λ i. find k (set_status i s t) ≡ some (with_status s r)) e
        (find-set_status_self k s t r h),
    refl,
  )
  | no ne ↦ (r, find-set_status_ne k j s t ne ∙ h, refl)
]

rival-Interferes : Interferes registry (contended.rival registry)
rival-Interferes = record {
  valid = rival-IsValid;
  keeps = λ k r h.
      let (r₁, h₁, e₁) = set_status_keeps 1 retired registry k r h in
      let (r₂, h₂, e₂) = set_status_keeps 3 deployed (set_status 1 retired registry) k r₁ h₁ in
      (r₂, h₂, e₂ ∙ e₁);
}

-- The candidate is deployed while version 3 takes the pointer: the deploy is refused.
deploy_contended : (deploy (deps 1) candidate contended world).0 ≡ err deployed_conflict
unfolding deploy gpu_lock deploy_locked load_and_check verify_artifact_checksum validate_base_model
    mock_backend move_pointer retire_previous is_deployed flush_pointer
deploy_contended = refl

deploy-IsValid_example : IsValid (deploy (deps 1) candidate contended world).1.versions
deploy-IsValid_example =
    deploy-IsValid (deps 1) candidate contended world registry-IsValid refl rival-Interferes

-- A smoke test that asks for three characters fails on the backend's two.
deploy_smoke : (deploy (deps 3) candidate call world).0 ≡ err smoke_test_error
unfolding deploy gpu_lock deploy_locked load_and_check verify_artifact_checksum validate_base_model
    mock_backend
deploy_smoke = refl

deploy-Aborted_example :
    Aborted (deps 1) world contended deployed_conflict (deploy (deps 1) candidate contended world).1
deploy-Aborted_example =
    deploy-Aborted (deps 1) candidate contended world deployed_conflict deploy_contended

load_and_check-candidate : (load_and_check (deps 1) 100 candidate world).0 ≡ ok tt
unfolding load_and_check verify_artifact_checksum validate_base_model mock_backend
load_and_check-candidate = refl

checked_url :
    (load_and_check (deps 1) (get_serving_backend (settings 1) none) candidate world).0 ≡ ok tt
unfolding get_serving_backend
checked_url = load_and_check-candidate

deploy_goes_through :
    (deploy (deps 1) candidate call world).0 ≡ ok (history_row (deps 1) candidate call, some live)
unfolding deploy gpu_lock deploy_locked load_and_check verify_artifact_checksum validate_base_model
    mock_backend move_pointer retire_previous is_deployed flush_pointer
deploy_goes_through = refl

deploy-Deployed_example :
    Deployed
      (deps 1)
      (other_deployed 7 2 registry)
      candidate
      call
      world
      (deploy (deps 1) candidate call world)
deploy-Deployed_example =
    deploy-Deployed (deps 1) candidate call world (history_row (deps 1) candidate call, some live)
      registry-IsValid refl refl deploy_goes_through

abbrev staged : Deployment
staged = record {
  deployment_id = 40;
  model_id = 7;
  model_version = 3;
  environment = 1;
  deployed_at = 18;
}

stage_deploy-fresh : (stage_deploy (deps 1) fresh call world).0 ≡ ok staged
unfolding stage_deploy deploy gpu_lock deploy_locked load_and_check verify_artifact_checksum
    validate_base_model mock_backend move_pointer retire_previous is_deployed flush_pointer
stage_deploy-fresh = refl

stage_deploy_registry_example :
    (stage_deploy (deps 1) fresh call world).1.versions ≡ set_status 3 staging registry
stage_deploy_registry_example =
    stage_deploy_registry (deps 1) fresh call world staged registry-IsValid refl refl
      stage_deploy-fresh

create_decision_outcome_example :
    ((e : PromotionError) × (create_decision gate fresh promote_it request world ≡ (err e, world))
      × Refusal gate fresh promote_it e)
    ⊎ ((decision : PromotionDecision) × ((create_decision gate fresh promote_it request world).0
          ≡ ok decision)
        × Recorded gate fresh promote_it request world decision
            (create_decision gate fresh promote_it request world).1)
create_decision_outcome_example = create_decision_outcome gate fresh promote_it request world refl
