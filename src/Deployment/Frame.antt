-- ===== src/Deployment/Frame.antt =====
-- What the parts of a deploy leave alone, and what a failed deploy leaves behind.
use defnex_mlops.Base.{
  none, some, ℕ, ◌≡◌, ◌⊎◌, err, arith, Option, some, ok, Bool-cases, leb, inl, inr,
}
use defnex_mlops.Registry.{ModelVersion, deployed}
use defnex_mlops.Deployment.{
  Deps, Call, DeployError, deployed_conflict, load_and_check, deploy_locked, deploy,
  get_serving_backend, move_pointer, other_deployed, flush_pointer, retire_previous, Versions,
  count_deployed, set_status,
}
use defnex_mlops.World.{World}

-- The tables of the database are the same in both worlds.
pub record SameTables {S : Type 0} (w w' : World S) : Type 0 where
  pub versions_same : w'.versions ≡ w.versions
  pub deployments_same : w'.deployments ≡ w.deployments
  pub decisions_same : w'.decisions ≡ w.decisions
  pub audit_same : w'.audit ≡ w.audit

module _ {S : Type 0} (d : Deps S) where
  -- Loading and smoke-testing an adapter changes no table, on any branch.
  pub load_and_check-SameTables :
      (url : ℕ) (mv : ModelVersion) (w : World S) → SameTables w (load_and_check d url mv w).1
  unfolding load_and_check
  load_and_check-SameTables url mv w = ground arith

  -- How a failed deploy leaves the tables: as they were, or, where it lost a race, as the
  -- transaction that won it committed them. No history, decision or audit row is written.
  pub record Aborted (w : World S) (c : Call) (e : DeployError) (w' : World S) : Type 0 where
    pub versions_kept :
        (w'.versions ≡ w.versions) ⊎ ((e ≡ deployed_conflict) × (w'.versions ≡ c.rival w.versions))
    pub deployments_same : w'.deployments ≡ w.deployments
    pub decisions_same : w'.decisions ≡ w.decisions
    pub audit_same : w'.audit ≡ w.audit

  -- The retirement of the previous version writes no history.
  pub record SameHistory (w w' : World S) : Type 0 where
    pub deployments_same : w'.deployments ≡ w.deployments
    pub decisions_same : w'.decisions ≡ w.decisions
    pub audit_same : w'.audit ≡ w.audit

  pub retire_previous-SameHistory :
      (url : ℕ) (previous : Option ModelVersion) (w : World S)
      → ((retire_previous d url previous w).0 ≡ ok tt)
        × SameHistory w (retire_previous d url previous w).1
  unfolding retire_previous
  retire_previous-SameHistory url none w = ground arith
  retire_previous-SameHistory url (some p) w = ground arith

  -- A flush that breaks the index leaves what is committed, and no row.
  pub flush_pointer-Aborted :
      (url : ℕ) (mv : ModelVersion) (c : Call) (committed : Versions) (w : World S)
      (e : DeployError)
      → (flush_pointer d url mv c committed w).0 ≡ err e
      → (e ≡ deployed_conflict)
        × ((flush_pointer d url mv c committed w).1.versions ≡ committed)
        × SameHistory w (flush_pointer d url mv c committed w).1
  unfolding flush_pointer
  flush_pointer-Aborted url mv c committed w e h =
      elim (Bool-cases
        (leb (count_deployed mv.model_id (set_status mv.id deployed w.versions)) 1)) [
          | inl fits ↦ let h' = rw fits at h in cc h'
          | inr conflict ↦ rw conflict (ground arith)
        ]

  move_pointer-Aborted :
      (url : ℕ) (mv : ModelVersion) (c : Call) (previous : Option ModelVersion) (w : World S)
      (e : DeployError)
      → (move_pointer d url mv c previous w).0 ≡ err e
      → Aborted w c e (move_pointer d url mv c previous w).1
  unfolding move_pointer
  move_pointer-Aborted url mv c previous w e h =
      let w₁ : World S = record w { versions = c.rival w.versions } in
      let w₂ = (retire_previous d url previous w₁).1 in
      ground (
        arith,
        retire_previous-SameHistory url previous w₁,
        flush_pointer-Aborted url mv c (c.rival w.versions) w₂ e,
      )

  deploy_locked-Aborted :
      (mv : ModelVersion) (c : Call) (w : World S) (e : DeployError)
      → (deploy_locked d mv c w).0 ≡ err e
      → Aborted w c e (deploy_locked d mv c w).1
  unfolding deploy_locked
  deploy_locked-Aborted mv c w e h =
      let url = get_serving_backend d.settings c.environment in
      let previous = other_deployed mv.model_id mv.id w.versions in
      let checked = load_and_check d url mv w in
      ground (
        arith,
        load_and_check-SameTables url mv w,
        move_pointer-Aborted url mv c previous checked.1 e,
      )

  -- A deploy that raises leaves no trace in the tables: no version changes its status, and no
  -- history, decision or audit row is written. If it lost a race, they are as the winner left them.
  pub deploy-Aborted :
      (mv : ModelVersion) (c : Call) (w : World S) (e : DeployError)
      → (deploy d mv c w).0 ≡ err e
      → Aborted w c e (deploy d mv c w).1
  unfolding deploy
  deploy-Aborted mv c w e h = ground (arith, deploy_locked-Aborted mv c w e)
