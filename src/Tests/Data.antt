-- ===== src/Tests/Data.antt =====
-- Test data: a model with a production version and a candidate, and a mocked serving backend.
use defnex_mlops.Base.{ℕ, List, none, some, true, [], ◌+◌, ◌∷◌, false, ltb}
use defnex_mlops.Registry.{
  ModelVersion, Status, Versions, deployed, evaluated, promoted, set_status, retired,
}
use defnex_mlops.Deployment.{Deps, Call}
use defnex_mlops.World.{World, promote}
use defnex_mlops.Serving.{Settings, Event, mock_backend}
use defnex_mlops.Promotion.{Request}
use defnex_mlops.EvalGate.{GateSettings}

abbrev pub version_row : ℕ → Status → ModelVersion
version_row k s = record {
  id = k;
  model_id = 7;
  version = k;
  status = s;
  training_run_id = k;
  base_model = 5;
  artifacts = record { is_adapter = true; uri = some (90 + k); checksum = none } ∷ [];
  eval_loss_trend =
      some (record { this_version_eval_loss = 12; previous_version_eval_loss = some 15 });
  qualitative_comparison = some (record { wins = 6; losses = 4 });
  general_domain_regression_check = some (record { regressions_found = [] });
  eval_set_id = some 3;
  eval_set_version = some 1;
  evaluation_requested = false;
  promotion_decision_ref = none;
}

abbrev pub live : ModelVersion
live = version_row 1 deployed

abbrev pub candidate : ModelVersion
candidate = version_row 2 promoted

abbrev pub fresh : ModelVersion
fresh = version_row 3 evaluated

abbrev pub registry : Versions
registry = live ∷ candidate ∷ fresh ∷ []

abbrev pub world : World (List Event)
world = record { versions = registry; deployments = []; decisions = []; audit = []; serving = [] }

abbrev pub settings : ℕ → Settings
settings min_chars = record {
  serving_backend_is_vllm = true;
  served_base_model = some 5;
  inference_smoke_enabled = true;
  inference_smoke_prompt = 80 ∷ 73 ∷ [];
  inference_smoke_min_chars = min_chars;
  deployment_environment = 2;
  vllm_url = 100;
  vllm_url_by_env = [];
  gpu_lock_timeout = 50;
}

-- The canned text of the backend has two characters.
abbrev pub deps : ℕ → Deps (List Event)
deps min_chars = record {
  settings = settings min_chars;
  backend = mock_backend (λ m v. 79 ∷ 75 ∷ []);
  storage = record { recorded = λ uri. some uri; compute_checksum = λ uri. uri };
}

-- The lock is held by another process until time 20.
abbrev pub call : Call
call = record {
  environment = none;
  actor_id = some 1;
  action = promote;
  reason = none;
  deployment_id = 40;
  now = 18;
  held = λ t. ltb t 20;
  rival = λ t. t;
}

-- While the deploy runs, another request deploys version 3 and retires version 1.
abbrev pub contended : Call
contended = record call { rival = λ t. set_status 3 deployed (set_status 1 retired t) }

abbrev pub gate : GateSettings
gate = record {
  require_eval_set_reference = true;
  require_qualitative_majority = true;
  require_no_general_regression = true;
  require_eval_loss_not_worse = true;
}

abbrev pub request : Request
request = record { decided_by = some 1; rationale = 55; actor_id = some 1; decision_id = 70 }
