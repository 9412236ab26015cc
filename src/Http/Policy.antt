-- ===== src/Http/Policy.antt =====
-- What the retry policy does with the replies of a client.
use defnex_mlops.Base.{
  ℕ, ◌+◌, ◌≡◌, Bool, false, ◌&&◌, List, Option, none, some, [], ◌∷◌, ltb, leb, if◌then◌else◌, arith,
  Result, ok, err,
}
use defnex_mlops.Http.{
  Reply, HttpError, response, request_error, http_status_error, connection_error, json_decode_error,
  classify, request_with_retry,
}

-- A reply that ends the call: any response of the server but a 5xx.
abbrev pub is_final : {B : Type 0} → Reply B → Bool
is_final (response code _) = ltb code 500
is_final request_error = false

-- What the caller gets from the reply that ends the call, or from the third one: the parsed body of a
-- 2xx response, the error of a body that is not JSON, or the error of the reply itself.
abbrev pub outcome : {A B : Type 0} → (B → Option A) → Reply B → Result HttpError A
outcome parse (response code body) =
    if leb 200 code && ltb code 300
    then elim (parse body) [ none ↦ err json_decode_error | some a ↦ ok a ]
    else err (http_status_error code)
outcome parse request_error = err connection_error

-- The policy, said on the replies to three attempts: the result, the delays before the further
-- attempts, and the number of requests.
abbrev pub policy :
    {A B : Type 0} → (B → Option A) → Reply B → Reply B → Reply B → Result HttpError A × List ℕ × ℕ
policy parse a b c =
    if is_final a
    then (outcome parse a, [], 1)
    else if is_final b
    then (outcome parse b, 1 ∷ [], 2)
    else (outcome parse c, 1 ∷ 2 ∷ [], 3)

-- A client that counts the requests it is sent.
abbrev pub counted : {T B : Type 0} → (T → Reply B × T) → ℕ × T → Reply B × (ℕ × T)
counted send (n, t) = let (reply, t') = send t in (reply, (n + 1, t'))

-- Whatever the client answers, a response other than a 5xx ends the call, with its body or its error,
-- and is never sent again; a 5xx and a connection error are tried again after one and then two seconds,
-- and the third reply ends the call in any case.
pub request_with_retry-policy :
    {T A B : Type 0} (parse : B → Option A) (send : T → Reply B × T) (t : T)
    → let (a, t1) = send t in
      let (b, t2) = send t1 in
      let (r, delays, (n, _)) = request_with_retry parse (counted send) (0, t) in
      (r, delays, n) ≡ policy parse a b (send t2).0
unfolding request_with_retry classify
request_with_retry-policy parse send t = ground arith
