-- ===== src/Deployment/Pointer.antt =====
-- The production pointer after a deploy: who holds it, and that one version at most does.
use native.Mathlib.Decide.{ℕ_discrete}
use defnex_mlops.Base.{
  ℕ, ◌≡◌, ◌≢◌, ◌≤◌, inl, inr, Bool-cases, arith, some, leb, Option-cases, sym, refl, ◌∙◌,
}
use defnex_mlops.Registry.{
  ModelVersion, Versions, find, set_status, count_deployed, is_deployed, deployed, retired,
  other_deployed,
}
use defnex_mlops.Registry.Lookup.{
  IsValid, count_deployed-set_status, set_status-Keyed, Keyed, other_deployed_sound,
  find-set_status_ne,
}
use defnex_mlops.Deployment.{
  Deps, Call, flush_pointer, Status, deployed, move_pointer, retire_previous, deploy, deploy_locked,
  load_and_check,
}
use defnex_mlops.World.{World}
use mathlib.Core.Path.{subst}
use defnex_mlops.Deployment.Frame.{retire_previous-SameHistory, load_and_check-SameTables}
use defnex_mlops.Serving.{get_serving_backend}

-- What other transactions may have committed meanwhile: a valid table, in which the rows of the
-- old one are still there, each under its model.
pub record Interferes (t t' : Versions) : Type 0 where
  pub valid : IsValid t'
  pub keeps :
      (k : ℕ) (r : ModelVersion)
      → find k t ≡ some r
      → (r' : ModelVersion) × (find k t' ≡ some r') × (r'.model_id ≡ r.model_id)

-- A change of one row's status leaves the count of every other model alone.
count_deployed-other :
    (m k : ℕ) (s : Status) (t : Versions) (r : ModelVersion)
    → find k t ≡ some r
    → r.model_id ≢ m
    → count_deployed m (set_status k s t) ≡ count_deployed m t
count_deployed-other m k s t r h ne = ground (arith, count_deployed-set_status m k s t r h)

-- A row is marked and the count of its model is within the index: then the table is valid.
set_status-IsValid :
    (k : ℕ) (s : Status) (t : Versions) (r : ModelVersion)
    → IsValid t
    → find k t ≡ some r
    → count_deployed r.model_id (set_status k s t) ≤ 1
    → IsValid (set_status k s t)
set_status-IsValid k s t r v f h = record {
  keyed = set_status-Keyed k s t v.keyed;
  one_deployed = λ m. elim (ℕ_discrete r.model_id m) [
    | yes e ↦ subst (λ i. count_deployed i (set_status k s t) ≤ 1) e h
    | no ne ↦ rw (count_deployed-other m k s t r f ne) (v.one_deployed m)
  ];
}

-- A version that is retired gives up the pointer.
retire-IsValid :
    (k : ℕ) (t : Versions) (r : ModelVersion)
    → IsValid t
    → find k t ≡ some r
    → IsValid (set_status k retired t)
unfolding is_deployed
retire-IsValid k t r v f = set_status-IsValid k retired t r v f (
    ground (arith, count_deployed-set_status r.model_id k retired t r f, v.one_deployed r.model_id))

module _ {S : Type 0} (d : Deps S) where
  flush_pointer-IsValid :
      (url : ℕ) (mv : ModelVersion) (c : Call) (committed : Versions) (w : World S)
      (r : ModelVersion)
      → IsValid w.versions
      → IsValid committed
      → find mv.id w.versions ≡ some r
      → r.model_id ≡ mv.model_id
      → IsValid (flush_pointer d url mv c committed w).1.versions
  unfolding flush_pointer
  flush_pointer-IsValid url mv c committed w r v vc f e =
      elim (Bool-cases
        (leb (count_deployed mv.model_id (set_status mv.id deployed w.versions)) 1)) [
          | inl fits ↦
              rw fits (set_status-IsValid mv.id deployed w.versions r v f (rw e (ground arith)))
          | inr conflict ↦ rw conflict vc
        ]

  -- The retirement of the previous version, in a table where its row is still there.
  retire_previous-IsValid :
      (url : ℕ) (t : Versions) (m k : ℕ) (w : World S)
      → Keyed t
      → IsValid w.versions
      → Interferes t w.versions
      → IsValid (retire_previous d url (other_deployed m k t) w).1.versions
        × (find k (retire_previous d url (other_deployed m k t) w).1.versions ≡ find k w.versions)
  unfolding retire_previous
  retire_previous-IsValid url t m k w h v i = elim (Option-cases (other_deployed m k t)) [
    | inl e ↦ rw e (v, refl)
    | inr (p, e) ↦
        let was = other_deployed_sound m k t p h e in
        let (p', stored, _) = i.keeps p.id p was.stored in
        rw e (
          retire-IsValid p.id w.versions p' v stored,
          find-set_status_ne k p.id retired w.versions (λ q. was.other (sym q)),
        )
  ]

  move_pointer-IsValid :
      (url : ℕ) (mv : ModelVersion) (c : Call) (w : World S)
      → IsValid w.versions
      → find mv.id w.versions ≡ some mv
      → Interferes w.versions (c.rival w.versions)
      → IsValid (move_pointer d url mv c (other_deployed mv.model_id mv.id w.versions) w).1.versions
  unfolding move_pointer
  move_pointer-IsValid url mv c w v f i =
      let previous = other_deployed mv.model_id mv.id w.versions in
      let w₁ : World S = record w { versions = c.rival w.versions } in
      let w₂ = (retire_previous d url previous w₁).1 in
      let (v₂, same) =
        retire_previous-IsValid url w.versions mv.model_id mv.id w₁ v.keyed i.valid i in
      let (r, stored, model) = i.keeps mv.id mv f in
      let v₃ =
        flush_pointer-IsValid url mv c (c.rival w.versions) w₂ r v₂ i.valid (same ∙ stored) model in
      ground (arith, retire_previous-SameHistory d url previous w₁, v₃)

  deploy_locked-IsValid :
      (mv : ModelVersion) (c : Call) (w : World S)
      → IsValid w.versions
      → find mv.id w.versions ≡ some mv
      → Interferes w.versions (c.rival w.versions)
      → IsValid (deploy_locked d mv c w).1.versions
  unfolding deploy_locked
  deploy_locked-IsValid mv c w v f i =
      let url = get_serving_backend d.settings c.environment in
      let same = load_and_check-SameTables d url mv w in
      let w₁ = (load_and_check d url mv w).1 in
      let moved =
        move_pointer-IsValid url mv c w₁ (rw same.versions_same v) (rw same.versions_same f)
          (rw same.versions_same i) in
      ground (arith, same, moved)

  -- Whatever other transactions commit while a deploy runs, and however it ends, the registry
  -- keeps its keys and never has two DEPLOYED versions of one model. The version that is deployed
  -- is a row of a valid table, and the others' commits leave a valid table that keeps its rows.
  pub deploy-IsValid :
      (mv : ModelVersion) (c : Call) (w : World S)
      → IsValid w.versions
      → find mv.id w.versions ≡ some mv
      → Interferes w.versions (c.rival w.versions)
      → IsValid (deploy d mv c w).1.versions
  unfolding deploy
  deploy-IsValid mv c w v f i = ground (arith, deploy_locked-IsValid mv c w v f i)
