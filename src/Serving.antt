-- ===== src/Serving.antt =====
-- The serving boundary (app/services/serving.py): the `ServingBackend` protocol, the two backends,
-- and which server an environment resolves to. Names and URLs are numbers; a text is a list of
-- code points.
use defnex_mlops.Base.{
  ℕ, ◌+◌, ◌/◌, Bool, true, Option, none, some, List, [], ◌∷◌, ◌++◌, ◌==◌, if◌then◌else◌, get_or,
  Result, ok, err, Action, pure, length, leb,
}
use defnex_mlops.Registry.{Artifact, ModelVersion}
use defnex_mlops.Http.{Reply, HttpError, request_with_retry}

pub data ServingError : Type 0 where
  load_failed no_adapter_artifact missing_uri : ServingError

pub data InferenceError : Type 0 where
  generation_failed no_completion_text : InferenceError

pub record GenerationResult : Type 0 where
  pub text : List ℕ
  pub prompt_tokens : ℕ
  pub completion_tokens : ℕ

-- `backend.unload` is defined not to raise, but an implementation could: its result says whether
-- it did.
pub data UnloadOutcome : Type 0 where
  returned raised : UnloadOutcome

-- The protocol. Every call names the server that it goes to, so that one value stands for the
-- backends of all environments; `S` is what those servers remember.
pub record ServingBackend (S : Type 0) : Type 0 where
  pub deploy : ℕ → ModelVersion → Action S ServingError Unit
  pub unload : ℕ → ℕ → ℕ → S → UnloadOutcome × S
  pub generate : ℕ → List ℕ → ℕ → ℕ → Action S InferenceError GenerationResult

-- The settings that the deploy path reads. An empty `served_base_model` is `none`.
pub record Settings : Type 0 where
  pub serving_backend_is_vllm : Bool
  pub served_base_model : Option ℕ
  pub inference_smoke_enabled : Bool
  pub inference_smoke_prompt : List ℕ
  pub inference_smoke_min_chars : ℕ
  pub deployment_environment : ℕ
  pub vllm_url : ℕ
  pub vllm_url_by_env : List (ℕ × ℕ)
  pub gpu_lock_timeout : ℕ

-- The environments that the code names.
abbrev pub default_environment : ℕ
default_environment = 0

abbrev pub staging_environment : ℕ
staging_environment = 1

abbrev pub production_environment : ℕ
production_environment = 2

abbrev pub lookup_url : ℕ → List (ℕ × ℕ) → Option ℕ
lookup_url env [] = none
lookup_url env ((name, url) ∷ urls) = if env == name then some url else lookup_url env urls

-- `get_serving_backend`, as the URL of the server behind the backend that it returns: an
-- environment that `vllm_url_by_env` does not list gets a backend on the default URL.
unfoldable pub get_serving_backend : Settings → Option ℕ → ℕ
get_serving_backend settings none = settings.vllm_url
get_serving_backend settings (some env) =
    if env == default_environment
    then settings.vllm_url
    else get_or (lookup_url env settings.vllm_url_by_env) settings.vllm_url

unfoldable pub base_model_matches : Option ℕ → ModelVersion → Bool
base_model_matches none mv = true
base_model_matches (some served) mv = mv.base_model == served

-- `_validate_base_model`: whether the deploy may go on.
unfoldable pub validate_base_model : Settings → ModelVersion → Bool
unfolding base_model_matches
validate_base_model settings mv = base_model_matches settings.served_base_model mv

-- `_estimate_tokens`
unfoldable pub estimate_tokens : List ℕ → ℕ
estimate_tokens [] = 0
estimate_tokens (c ∷ text) =
    let estimate = (length (c ∷ text) + 3) / 4 in if leb 1 estimate then estimate else 1

-- The calls that `MockServingBackend` records, with the server that they went to.
pub data Event : Type 0 where
  load unload : ℕ → ℕ → ℕ → Event

-- `MockServingBackend`; `spell` is the text of its canned generation.
unfoldable pub mock_backend : (ℕ → ℕ → List ℕ) → ServingBackend (List Event)
unfolding estimate_tokens
mock_backend spell = record {
  deploy = λ url mv events. (ok tt, events ++ load url mv.model_id mv.version ∷ []);
  unload = λ url m v events. (returned, events ++ Event.unload url m v ∷ []);
  generate = λ url prompt m v. pure (record {
    text = spell m v;
    prompt_tokens = estimate_tokens prompt;
    completion_tokens = estimate_tokens (spell m v);
  });
}

-- A request of `VLLMServingBackend` to a server.
pub data Request : Type 0 where
  load_lora_adapter : ℕ → ℕ → ℕ → Request
  unload_lora_adapter : ℕ → ℕ → Request
  completions : ℕ → ℕ → List ℕ → Request

-- What a 2xx response carries: `choices[0]["text"]`, or nothing, and the token counts.
pub record Body : Type 0 where
  pub choice : List ℕ
  pub prompt_tokens : ℕ
  pub completion_tokens : ℕ

-- `_adapter_path`: the `uri` of the first adapter. An adapter without one is a `KeyError`.
adapter_path : List Artifact → Result ServingError ℕ
adapter_path [] = err no_adapter_artifact
adapter_path (a ∷ artifacts) =
    if a.is_adapter
    then elim a.uri [ none ↦ err missing_uri | some uri ↦ ok uri ]
    else adapter_path artifacts

-- A completion without text is an error.
generation : Body → Result InferenceError GenerationResult
generation body = elim body.choice [
  | [] ↦ err no_completion_text
  | c ∷ text ↦ ok (record {
    text = c ∷ text;
    prompt_tokens = body.prompt_tokens;
    completion_tokens = body.completion_tokens;
  })
]

abbrev on_reply : {A E : Type 0} → (Body → Result E A) → E → Result HttpError Body → Result E A
on_reply f e (ok body) = f body
on_reply f e (err _) = err e

-- `VLLMServingBackend` over an HTTP client whose completions are JSON, as vLLM documents them: a body
-- that is none would raise a `JSONDecodeError`, which is no `InferenceError`. Its `unload` swallows every error.
unfoldable pub vllm_backend : {T : Type 0} → (ℕ → Request → T → Reply Body × T) → ServingBackend T
unfolding request_with_retry generation adapter_path
vllm_backend send = record {
  deploy = λ url mv t. elim (adapter_path mv.artifacts) [
    | err e ↦ (err e, t)
    | ok path ↦
        let (r, _, t') =
          request_with_retry some (send url (load_lora_adapter mv.model_id mv.version path)) t in
        (on_reply (λ _. ok tt) load_failed r, t')
  ];
  unload = λ url m v t.
      let (_, _, t') = request_with_retry some (send url (unload_lora_adapter m v)) t in
      (returned, t');
  generate = λ url prompt m v t.
      let (r, _, t') = request_with_retry some (send url (completions m v prompt)) t in
      (on_reply generation generation_failed r, t');
}
