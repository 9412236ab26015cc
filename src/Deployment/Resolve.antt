-- ===== src/Deployment/Resolve.antt =====
-- The two ways of asking which version is production agree, and follow the pointer.
use defnex_mlops.Base.{ℕ, Result, ◌≡◌, arith, ok, some, true, err, none}
use defnex_mlops.Deployment.{Deps, Call, load_and_check, deploy_locked}
use defnex_mlops.Deployment.Queries.{
  DeploymentStatus, get_deployment_status, resolve_alias, AliasError, prod, no_deployed_version,
}
use defnex_mlops.World.{World}
use defnex_mlops.Registry.{ModelVersion, find, is_deployed, with_status, deployed}
use defnex_mlops.Registry.Lookup.{IsValid, deployed_model_version_sound}
use defnex_mlops.Serving.{get_serving_backend}
use defnex_mlops.Deployment.Success.{deploy_locked-Deployed, repoint_points}

-- How an answer for `prod` and a deployment status fit together.
pub record Agrees (m : ℕ) (status : DeploymentStatus) (resolved : Result AliasError ModelVersion)
    : Type 0 where
  pub about : status.model_id ≡ m
  pub found :
      (r : ModelVersion)
      → resolved ≡ ok r
      → (status.current_deployed_version ≡ some r.version)
        × (r.model_id ≡ m)
        × (is_deployed r.status ≡ true)
  pub missing :
      (e : AliasError)
      → resolved ≡ err e
      → (status.current_deployed_version ≡ none) × (e ≡ no_deployed_version)

-- The alias `prod` resolves to a version exactly when the deployment status names one, and to that
-- one: a DEPLOYED row of this model.
pub resolve_alias-Agrees :
    {S : Type 0} (w : World S) (m : ℕ)
    → Agrees m (get_deployment_status w m) (resolve_alias w m prod)
unfolding get_deployment_status resolve_alias
resolve_alias-Agrees w m = record {
  about = ground arith;
  found = λ r h. ground (arith, deployed_model_version_sound m w.versions r);
  missing = λ e h. ground arith;
}

module _ {S : Type 0} (d : Deps S) where
  -- After an uncontended deploy that raised nothing, `prod` resolves to the version deployed.
  pub resolve_alias-deploy_locked :
      (mv : ModelVersion) (c : Call) (w : World S)
      → IsValid w.versions
      → find mv.id w.versions ≡ some mv
      → c.rival w.versions ≡ w.versions
      → (load_and_check d (get_serving_backend d.settings c.environment) mv w).0 ≡ ok tt
      → resolve_alias (deploy_locked d mv c w).1 mv.model_id prod ≡ ok (with_status deployed mv)
  unfolding resolve_alias
  resolve_alias-deploy_locked mv c w v f quiet checked =
      let moved = deploy_locked-Deployed d mv c w v f quiet checked in
      ground (arith, moved, repoint_points mv w.versions v f)
