-- ===== src/Promotion/Pointer.antt =====
-- Who may become production, and what a promotion to production and a rollback write.
use defnex_mlops.Base.{◌++◌, some, ◌≡◌, none, ok, true, ◌∷◌, [], Result-cases, inl, arith, inr}
use defnex_mlops.Promotion.{
  promote_to_production, rollback, Request, record_ladder_step, in_promotion_source,
  in_rollback_targets, referenced,
}
use defnex_mlops.Deployment.Success.{repoint, deploy-Deployed}
use defnex_mlops.Registry.Lookup.{IsValid}
use defnex_mlops.Deployment.{Deps, Call, deploy}
use defnex_mlops.World.{
  World, rollback_action, PromotionDecision, deploy_action, production_decision, rollback_decision,
}
use defnex_mlops.Registry.{ModelVersion, find, update, other_deployed}
use defnex_mlops.Serving.{production_environment}

module _ {S : Type 0} (d : Deps S) where
  -- The calls that the two operations make.
  abbrev pub production_call : Call → Call
  production_call c = record c {
    environment = some production_environment;
    action = deploy_action;
    reason = none;
  }

  abbrev pub rollback_call : Request → Call → Call
  rollback_call q c = record c { action = rollback_action; reason = some q.rationale }

  -- What an operation that moved the pointer to `mv` left in the tables.
  pub record PointerMoved (mv : ModelVersion) (q : Request) (w w' : World S)
      (decision : PromotionDecision) : Type 0 where
    pub registry : w'.versions ≡ update mv.id (referenced q.decision_id) (repoint mv w.versions)
    pub recorded : w'.decisions ≡ w.decisions ++ decision ∷ []

  -- An uncontended promotion to production that raises nothing was of a VALIDATED or a PROMOTED
  -- version; it moves the pointer to it and appends one PRODUCTION decision about it,
  -- by the user who asked.
  pub promote_to_production-PointerMoved :
      (mv : ModelVersion) (q : Request) (c : Call) (w : World S) (decision : PromotionDecision)
      → IsValid w.versions
      → find mv.id w.versions ≡ some mv
      → c.rival w.versions ≡ w.versions
      → (promote_to_production d mv q c w).0 ≡ ok decision
      → (in_promotion_source mv.status ≡ true)
        × (decision.decision ≡ production_decision)
        × (decision.model_version_id ≡ mv.id)
        × (decision.decided_by ≡ q.decided_by)
        × PointerMoved mv q w (promote_to_production d mv q c w).1 decision
  unfolding promote_to_production record_ladder_step
  promote_to_production-PointerMoved mv q c w decision v f quiet h =
      elim (Result-cases (deploy d mv (production_call c) w).0) [
        | inl (x, e) ↦
            let moved = deploy-Deployed d mv (production_call c) w x v f quiet e in
            ground (arith, moved)
        | inr (x, e) ↦ ground arith
      ]

  -- An uncontended rollback that raises nothing was to a version that may be restored; it moves the
  -- pointer to it and appends one ROLLBACK decision that names it, about the version that it
  -- replaced, or about the target itself if there was none.
  pub rollback-PointerMoved :
      (target : ModelVersion) (q : Request) (c : Call) (w : World S) (decision : PromotionDecision)
      → IsValid w.versions
      → find target.id w.versions ≡ some target
      → c.rival w.versions ≡ w.versions
      → (rollback d target q c w).0 ≡ ok decision
      → (in_rollback_targets target.status ≡ true)
        × (decision.decision ≡ rollback_decision)
        × (decision.rollback_of_version ≡ some target.version)
        × (decision.model_version_id ≡ (elim (other_deployed target.model_id target.id w.versions) [
          | none ↦ target.id
          | some p ↦ p.id
        ]))
        × PointerMoved target q w (rollback d target q c w).1 decision
  unfolding rollback
  rollback-PointerMoved target q c w decision v f quiet h =
      elim (Result-cases (deploy d target (rollback_call q c) w).0) [
        | inl (x, e) ↦
            let moved = deploy-Deployed d target (rollback_call q c) w x v f quiet e in
            ground (arith, moved)
        | inr (x, e) ↦ ground arith
      ]
