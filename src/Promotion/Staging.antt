-- ===== src/Promotion/Staging.antt =====
-- Staging a candidate leaves the production pointer where it is.
use mathlib.Core.Path.{◌≡⟨◌⟩◌, ◌∎}
use defnex_mlops.Base.{some, Option, none, ◌≡◌, ok, ap, Result-cases, inl, arith, inr, refl}
use defnex_mlops.Registry.{
  ModelVersion, Versions, find, other_deployed, set_status, staging, deployed, retired,
}
use defnex_mlops.Deployment.{Deps, Call, deploy}
use defnex_mlops.World.{World, Deployment, deploy_action}
use defnex_mlops.Promotion.{stage_deploy, restore}
use defnex_mlops.Serving.{staging_environment}
use defnex_mlops.Registry.Lookup.{IsValid, other_deployed_sound}
use defnex_mlops.Deployment.Success.{repoint_from, deploy-Deployed}
use defnex_mlops.Registry.Update.{
  set_status-set_status, deployed_of, set_status_comm, set_status_same,
}

-- Deploy, demote and restore, on the registry: all that is left is the candidate's STAGING.
restore-repoint :
    (previous : Option ModelVersion) (mv : ModelVersion) (t : Versions)
    → IsValid t
    → other_deployed mv.model_id mv.id t ≡ previous
    → restore previous (set_status mv.id staging (repoint_from previous mv t))
      ≡ set_status mv.id staging t
unfolding restore
restore-repoint none mv t v e = set_status-set_status mv.id staging deployed t
restore-repoint (some p) mv t v e =
    let was = other_deployed_sound mv.model_id mv.id t p v.keyed e in
    let live = deployed_of p.status was.live in
    let t' = set_status p.id retired t in
    set_status p.id deployed (set_status mv.id staging (set_status mv.id deployed t'))
    ≡⟨ ap (set_status p.id deployed) (set_status-set_status mv.id staging deployed t') ⟩
      set_status p.id deployed (set_status mv.id staging t')
    ≡⟨ set_status_comm p.id mv.id deployed staging t' was.other ⟩
      set_status mv.id staging (set_status p.id deployed t')
    ≡⟨ ap (set_status mv.id staging) (set_status-set_status p.id deployed retired t) ⟩
      set_status mv.id staging (set_status p.id deployed t)
    ≡⟨ ap (set_status mv.id staging) (rw (← live) (set_status_same p.id t p was.stored)) ⟩
      set_status mv.id staging t ∎

module _ {S : Type 0} (d : Deps S) where
  -- The call that `stage_deploy` makes.
  abbrev pub staging_call : Call → Call
  staging_call c = record c {
    environment = some staging_environment;
    action = deploy_action;
    reason = none;
  }

  -- An uncontended staging deploy that raises nothing writes STAGING on the candidate and changes
  -- no other status: whichever version was production before still is.
  pub stage_deploy_registry :
      (mv : ModelVersion) (c : Call) (w : World S) (row : Deployment)
      → IsValid w.versions
      → find mv.id w.versions ≡ some mv
      → c.rival w.versions ≡ w.versions
      → (stage_deploy d mv c w).0 ≡ ok row
      → (stage_deploy d mv c w).1.versions ≡ set_status mv.id staging w.versions
  unfolding stage_deploy
  stage_deploy_registry mv c w row v f quiet h =
      elim (Result-cases (deploy d mv (staging_call c) w).0) [
        | inl (x, e) ↦
            let moved = deploy-Deployed d mv (staging_call c) w x v f quiet e in
            ground (
              arith,
              moved,
              restore-repoint (other_deployed mv.model_id mv.id w.versions) mv w.versions v refl,
            )
        | inr (x, e) ↦ ground arith
      ]
