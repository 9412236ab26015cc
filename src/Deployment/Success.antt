-- ===== src/Deployment/Success.antt =====
-- A deploy that no other transaction contends with: it goes through, and what it writes.
use defnex_mlops.Base.{
  ℕ, Result, get_or, leb, ◌≡◌, some, Option, ◌≤◌, ok, true, ◌++◌, arith, ◌∷◌, [], none, sym, ◌∙◌,
  refl, inl, inr, err, ◌⊎◌,
}
use defnex_mlops.Registry.{
  ModelVersion, Versions, is_deployed, other_deployed, find, count_deployed, deployed_model_version,
  set_status, deployed, with_status, retired,
}
use defnex_mlops.Deployment.{
  Deps, Call, flush_pointer, move_pointer, retire_previous, DeployError, audit_row, deploy_locked,
  load_and_check, deploy, lock_timeout,
}
use defnex_mlops.World.{Deployment, World}
use defnex_mlops.Registry.Lookup.{
  IsValid, deployed_model_version_unique, count_deployed-set_status, find-set_status_self,
  other_deployed-none, other_deployed_sound, find-set_status_ne,
}
use defnex_mlops.Serving.{get_serving_backend}
use defnex_mlops.Deployment.Frame.{load_and_check-SameTables}

-- The registry after the pointer has moved from `previous` to `mv`.
abbrev pub repoint_from : Option ModelVersion → ModelVersion → Versions → Versions
repoint_from none mv t = set_status mv.id deployed t
repoint_from (some p) mv t = set_status mv.id deployed (set_status p.id retired t)

abbrev pub repoint : ModelVersion → Versions → Versions
repoint mv t = repoint_from (other_deployed mv.model_id mv.id t) mv t

-- The row of `mv` is still there when the previous version has been retired.
retired_keeps :
    (mv p : ModelVersion) (t : Versions)
    → IsValid t
    → find mv.id t ≡ some mv
    → other_deployed mv.model_id mv.id t ≡ some p
    → find mv.id (set_status p.id retired t) ≡ some mv
retired_keeps mv p t v f e =
    let was = other_deployed_sound mv.model_id mv.id t p v.keyed e in
    find-set_status_ne mv.id p.id retired t (λ q. was.other (sym q)) ∙ f

-- Moving the pointer never breaks the partial unique index.
repoint_from-fits :
    (previous : Option ModelVersion) (mv : ModelVersion) (t : Versions)
    → IsValid t
    → find mv.id t ≡ some mv
    → other_deployed mv.model_id mv.id t ≡ previous
    → count_deployed mv.model_id (repoint_from previous mv t) ≤ 1
unfolding is_deployed
repoint_from-fits none mv t v f e = ground (
  arith,
  count_deployed-set_status mv.model_id mv.id deployed t mv f,
  other_deployed-none mv.model_id mv.id t mv v.keyed e f,
)
repoint_from-fits (some p) mv t v f e =
    let was = other_deployed_sound mv.model_id mv.id t p v.keyed e in
    ground (
      arith,
      v.one_deployed mv.model_id,
      was,
      count_deployed-set_status mv.model_id p.id retired t p was.stored,
      count_deployed-set_status mv.model_id mv.id deployed (set_status p.id retired t) mv
          (retired_keeps mv p t v f e),
    )

find-repoint_from :
    (previous : Option ModelVersion) (mv : ModelVersion) (t : Versions)
    → IsValid t
    → find mv.id t ≡ some mv
    → other_deployed mv.model_id mv.id t ≡ previous
    → find mv.id (repoint_from previous mv t) ≡ some (with_status deployed mv)
find-repoint_from none mv t v f e = find-set_status_self mv.id deployed t mv f
find-repoint_from (some p) mv t v f e =
    find-set_status_self mv.id deployed (set_status p.id retired t) mv (retired_keeps mv p t v f e)

-- After the move the row of `mv` is the one that is DEPLOYED.
pub repoint_points :
    (mv : ModelVersion) (t : Versions)
    → IsValid t
    → find mv.id t ≡ some mv
    → deployed_model_version mv.model_id (repoint mv t) ≡ some (with_status deployed mv)
unfolding is_deployed
repoint_points mv t v f =
    let previous = other_deployed mv.model_id mv.id t in
    deployed_model_version_unique mv.model_id mv.id (repoint mv t) (with_status deployed mv)
      (repoint_from-fits previous mv t v f refl) (find-repoint_from previous mv t v f refl) refl
      refl

module _ {S : Type 0} (d : Deps S) where
  -- The history row that a deploy appends.
  abbrev pub history_row : ModelVersion → Call → Deployment
  history_row mv c = record {
    deployment_id = c.deployment_id;
    model_id = mv.model_id;
    model_version = mv.version;
    environment = get_or c.environment d.settings.deployment_environment;
    deployed_at = c.now;
  }

  -- What a deploy that went through has done, `previous` being the version that held the pointer.
  pub record Deployed (previous : Option ModelVersion) (mv : ModelVersion) (c : Call) (w : World S)
      (outcome : Result DeployError (Deployment × Option ModelVersion) × World S) : Type 0 where
    pub succeeds : outcome.0 ≡ ok (history_row mv c, previous)
    pub registry : outcome.1.versions ≡ repoint_from previous mv w.versions
    pub history : outcome.1.deployments ≡ w.deployments ++ history_row mv c ∷ []
    pub audited : outcome.1.audit ≡ w.audit ++ audit_row d mv c previous ∷ []
    pub decisions_same : outcome.1.decisions ≡ w.decisions

  flush_pointer_fits :
      (url : ℕ) (mv : ModelVersion) (c : Call) (committed : Versions) (w : World S)
      → count_deployed mv.model_id (set_status mv.id deployed w.versions) ≤ 1
      → flush_pointer d url mv c committed w ≡ (
        ok (history_row mv c),
        record w {
          versions = set_status mv.id deployed w.versions;
          deployments = w.deployments ++ history_row mv c ∷ [];
        },
      )
  unfolding flush_pointer
  flush_pointer_fits url mv c committed w fits =
      let e : leb (count_deployed mv.model_id (set_status mv.id deployed w.versions)) 1 ≡ true =
        ground arith in
      rw e

  move_pointer-Deployed :
      (url : ℕ) (previous : Option ModelVersion) (mv : ModelVersion) (c : Call) (w : World S)
      → IsValid w.versions
      → find mv.id w.versions ≡ some mv
      → c.rival w.versions ≡ w.versions
      → other_deployed mv.model_id mv.id w.versions ≡ previous
      → Deployed previous mv c w (move_pointer d url mv c previous w)
  unfolding move_pointer retire_previous
  move_pointer-Deployed url none mv c w v f quiet e =
      let fits = repoint_from-fits none mv w.versions v f e in
      ground (arith, flush_pointer_fits url mv c w.versions w fits)
  move_pointer-Deployed url (some p) mv c w v f quiet e =
      let fits = repoint_from-fits (some p) mv w.versions v f e in
      let w₁ : World S = record w {
        versions = set_status p.id retired w.versions;
        serving = (d.backend.unload url p.model_id p.version w.serving).1;
      } in
      ground (arith, flush_pointer_fits url mv c w.versions w₁ fits)

  -- Without a contending transaction, a deploy whose checks pass goes through: the previous
  -- version is RETIRED, the new one DEPLOYED, and one history row and one audit row are written.
  pub deploy_locked-Deployed :
      (mv : ModelVersion) (c : Call) (w : World S)
      → IsValid w.versions
      → find mv.id w.versions ≡ some mv
      → c.rival w.versions ≡ w.versions
      → (load_and_check d (get_serving_backend d.settings c.environment) mv w).0 ≡ ok tt
      → Deployed (other_deployed mv.model_id mv.id w.versions) mv c w (deploy_locked d mv c w)
  unfolding deploy_locked
  deploy_locked-Deployed mv c w v f quiet checked =
      let url = get_serving_backend d.settings c.environment in
      let previous = other_deployed mv.model_id mv.id w.versions in
      let same = load_and_check-SameTables d url mv w in
      let w₁ = (load_and_check d url mv w).1 in
      let e = same.versions_same in
      let moved =
        move_pointer-Deployed url previous mv c w₁ (rw e v) (rw e f) (rw e quiet) (rw e refl) in
      ground (arith, checked, same, moved)

  -- A deploy that raises nothing has passed its checks.
  deploy_locked_checked :
      (mv : ModelVersion) (c : Call) (w : World S) (x : Deployment × Option ModelVersion)
      → (deploy_locked d mv c w).0 ≡ ok x
      → (load_and_check d (get_serving_backend d.settings c.environment) mv w).0 ≡ ok tt
  unfolding deploy_locked
  deploy_locked_checked mv c w x h = ground arith

  -- Under the lock or without it: a deploy times out, or is the locked deploy.
  pub deploy-cases :
      (mv : ModelVersion) (c : Call) (w : World S)
      → (deploy d mv c w ≡ (err lock_timeout, w)) ⊎ (deploy d mv c w ≡ deploy_locked d mv c w)
  unfolding deploy
  deploy-cases mv c w = ground arith

  -- Without a contending transaction, a deploy that raises nothing has done all of its work.
  pub deploy-Deployed :
      (mv : ModelVersion) (c : Call) (w : World S) (x : Deployment × Option ModelVersion)
      → IsValid w.versions
      → find mv.id w.versions ≡ some mv
      → c.rival w.versions ≡ w.versions
      → (deploy d mv c w).0 ≡ ok x
      → Deployed (other_deployed mv.model_id mv.id w.versions) mv c w (deploy d mv c w)
  deploy-Deployed mv c w x v f quiet h = elim (deploy-cases mv c w) [
    | inl busy ↦ ground arith
    | inr locked ↦
        rw locked (
          deploy_locked-Deployed mv c w v f quiet (deploy_locked_checked mv c w x (rw locked at h)))
  ]
