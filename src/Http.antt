-- ===== src/Http.antt =====
-- The shared HTTP retry policy (app/services/http_retry.py). The HTTP client is a parameter: `send`
-- performs one request and says what came back, and `parse` is what is done with the body of a 2xx
-- response: `resp.json()`, which gives nothing where it raises, or nothing at all where `parse_json` is
-- off. Logging is left out.
pub mod Policy
use defnex_mlops.Base.{
  ℕ, zero, suc, ◌+◌, Bool, ◌&&◌, Option, none, some, List, [], ◌∷◌, ◌++◌, ltb, leb, if◌then◌else◌,
  Result, ok, err,
}

-- What one request gave: a response with its status and body, or an `httpx.RequestError`.
pub data Reply (B : Type 0) : Type 0 where
  response : ℕ → B → Reply B
  request_error : Reply B

pub data HttpError : Type 0 where
  http_status_error : ℕ → HttpError
  connection_error : HttpError
  json_decode_error : HttpError

abbrev pub max_retries : ℕ
max_retries = 3

-- `RETRY_BACKOFF`, in seconds.
abbrev pub retry_backoff : ℕ → ℕ
retry_backoff zero = 1
retry_backoff (suc zero) = 2
retry_backoff _ = 4

-- `raise_for_status` passes the 2xx codes alone.
abbrev pub is_success : ℕ → Bool
is_success code = leb 200 code && ltb code 300

-- What the body of the loop makes of a reply.
pub data Verdict (B : Type 0) : Type 0 where
  success : B → Verdict B
  refused : HttpError → Verdict B
  transient : HttpError → Verdict B

-- A `JSONDecodeError` is caught by no handler of the loop.
abbrev pub parsed : {A : Type 0} → Option A → Verdict A
parsed none = refused json_decode_error
parsed (some a) = success a

unfoldable pub classify : {A B : Type 0} → (B → Option A) → Reply B → Verdict A
classify parse (response code body) =
    if is_success code
    then parsed (parse body)
    else if ltb code 500
    then refused (http_status_error code)
    else transient (http_status_error code)
classify parse request_error = transient connection_error

module _ {T A B : Type 0} (parse : B → Option A) (send : T → Reply B × T) where
  -- The rounds that are left, the number of this attempt, and the delays slept so far.
  unfoldable pub retry_loop : ℕ → ℕ → HttpError → List ℕ → T → Result HttpError A × List ℕ × T
  retry_loop zero attempt last delays t = (err last, delays, t)
  retry_loop (suc rounds) attempt last delays t =
      let (reply, t') = send t in
      elim (classify parse reply) [
        | success body ↦ (ok body, delays, t')
        | refused e ↦ (err e, delays, t')
        | transient e ↦
            retry_loop rounds (attempt + 1) e
              (if ltb (attempt + 1) max_retries
                then delays ++ retry_backoff attempt ∷ []
                else delays)
              t'
      ]

  -- `request_sync_with_retry`: the result, the delays, and the client afterwards.
  unfoldable pub request_with_retry : T → Result HttpError A × List ℕ × T
  unfolding retry_loop
  request_with_retry t = retry_loop max_retries 0 connection_error [] t
