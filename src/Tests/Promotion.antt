-- ===== src/Tests/Promotion.antt =====
-- A promotion to production and a rollback on the registry of the test data.
use defnex_mlops.Base.{◌≡◌, ok, refl, some, true, none}
use defnex_mlops.Tests.Registry.{registry-IsValid}
use defnex_mlops.Tests.Data.{candidate, deps, call, request, world}
use defnex_mlops.Promotion.{
  promote_to_production, rollback, in_promotion_source, in_rollback_targets,
}
use defnex_mlops.Promotion.Pointer.{PointerMoved, promote_to_production-PointerMoved}
use defnex_mlops.Deployment.{
  deploy, deploy_locked, load_and_check, verify_artifact_checksum, move_pointer, retire_previous,
  flush_pointer,
}
use defnex_mlops.World.{PromotionDecision, production_decision, rollback_decision}
use defnex_mlops.Registry.{promoted, is_deployed}
use defnex_mlops.GpuLock.{gpu_lock}
use defnex_mlops.Serving.{validate_base_model, mock_backend}

abbrev promotion : PromotionDecision
promotion = record {
  decision_id = 70;
  model_version_id = 2;
  decision = production_decision;
  decided_by = some 1;
  evidence_snapshot = none;
  eval_set_id = some 3;
  eval_set_version = some 1;
  rationale = 55;
  rollback_of_version = none;
}

promotes_candidate : (promote_to_production (deps 1) candidate request call world).0 ≡ ok promotion
unfolding promote_to_production deploy gpu_lock deploy_locked load_and_check
    verify_artifact_checksum validate_base_model mock_backend move_pointer retire_previous
    is_deployed flush_pointer defnex_mlops.Promotion.record_ladder_step
promotes_candidate = refl

promote_to_production-PointerMoved_example :
    (in_promotion_source promoted ≡ true)
    × (promotion.decision ≡ production_decision)
    × (promotion.model_version_id ≡ 2)
    × (promotion.decided_by ≡ request.decided_by)
    × PointerMoved
        (deps 1)
        candidate
        request
        world
        (promote_to_production (deps 1) candidate request call world).1
        promotion
promote_to_production-PointerMoved_example =
    promote_to_production-PointerMoved (deps 1) candidate request call world promotion
      registry-IsValid refl refl promotes_candidate

abbrev going_back : PromotionDecision
going_back = record {
  decision_id = 70;
  model_version_id = 1;
  decision = rollback_decision;
  decided_by = some 1;
  evidence_snapshot = none;
  eval_set_id = none;
  eval_set_version = none;
  rationale = 55;
  rollback_of_version = some 2;
}

rolls_back : (rollback (deps 1) candidate request call world).0 ≡ ok going_back
unfolding rollback deploy gpu_lock deploy_locked load_and_check verify_artifact_checksum
    validate_base_model mock_backend move_pointer retire_previous is_deployed flush_pointer
rolls_back = refl
