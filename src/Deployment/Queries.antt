-- ===== src/Deployment/Queries.antt =====
-- What reads the pointer: the deployment status and the aliases of
-- app/services/deployment_service.py.
use defnex_mlops.Base.{
  ℕ, List, Option, Result, err, some, ◌∷◌, if◌then◌else◌, none, ok, ◌==◌, ◌&&◌, ltb, [],
}
use defnex_mlops.World.{World, Deployment}
use defnex_mlops.Registry.{deployed_model_version, ModelVersion}

-- The status of the pointer, from `_status_for`.
pub record DeploymentStatus : Type 0 where
  pub model_id : ℕ
  pub current_deployed_version : Option ℕ
  pub deployed_at : Option ℕ

-- The newest history row of a version: `order_by(deployed_at.desc())`, first.
latest_deployed_at : ℕ → ℕ → Option ℕ → List Deployment → Option ℕ
latest_deployed_at m v best [] = best
latest_deployed_at m v best (row ∷ rows) =
    latest_deployed_at m v
      (if row.model_id == m && row.model_version == v
        then (elim best [
          | none ↦ some row.deployed_at
          | some t ↦ if ltb t row.deployed_at then some row.deployed_at else some t
        ])
        else best)
      rows

unfoldable pub status_for : List Deployment → ℕ → Option ModelVersion → DeploymentStatus
unfolding latest_deployed_at
status_for rows m none = record {
  model_id = m;
  current_deployed_version = none;
  deployed_at = none;
}
status_for rows m (some r) = record {
  model_id = m;
  current_deployed_version = some r.version;
  deployed_at = latest_deployed_at m r.version none rows;
}

unfoldable pub get_deployment_status : {S : Type 0} → World S → ℕ → DeploymentStatus
unfolding status_for
get_deployment_status w m = status_for w.deployments m (deployed_model_version m w.versions)

-- `prod` is the one alias there is.
pub data Alias : Type 0 where
  prod : Alias
  unknown_alias : ℕ → Alias

pub data AliasError : Type 0 where
  unsupported_alias no_deployed_version : AliasError

unfoldable pub resolve_alias : {S : Type 0} → World S → ℕ → Alias → Result AliasError ModelVersion
resolve_alias w m (unknown_alias _) = err unsupported_alias
resolve_alias w m prod = elim (deployed_model_version m w.versions) [
  | none ↦ err no_deployed_version
  | some r ↦ ok r
]
