-- ===== src/Idempotency.antt =====
-- The durable cache of responses by `X-Idempotency-Key`: app/services/idempotency_service.py, and its
-- use for deploys in app/services/deployment_service.py. Times are in seconds; a body that is stored as
-- JSON comes back as it was.
pub mod Replay
use defnex_mlops.Base.{
  ◌∷◌, if◌then◌else◌, ℕ, Action, Bool, List, Option, [], count, ltb, none, ok, some, ◌==◌, err,
  keep, ◌&&◌, not, ◌+◌,
}

-- A row of `idempotency_keys`. The key of a deploy is the caller's and the id of the version.
pub record IdempotencyKey (B : Type 0) : Type 0 where
  pub key : ℕ × ℕ
  pub endpoint : ℕ
  pub response_status : ℕ
  pub response_body : B
  pub created_at : ℕ
  pub expires_at : ℕ

pub record CachedResponse (B : Type 0) : Type 0 where
  pub status : ℕ
  pub body : B

pub data StoreError : Type 0 where
  key_exists : StoreError

-- `DEFAULT_TTL_SECONDS`
abbrev pub default_ttl_seconds : ℕ
default_ttl_seconds = 3600

abbrev pub deploy_endpoint : ℕ
deploy_endpoint = 0

unfoldable pub same_key : ℕ × ℕ → ℕ × ℕ → Bool
same_key (a, b) (c, d) = a == c && b == d

module _ {B : Type 0} where
  -- `db.get(IdempotencyKey, key)`
  unfoldable pub find_key : ℕ × ℕ → List (IdempotencyKey B) → Option (IdempotencyKey B)
  find_key k [] = none
  find_key k (r ∷ rows) = if same_key k r.key then some r else find_key k rows

  -- `db.delete(row)`
  unfoldable pub delete_key : ℕ × ℕ → List (IdempotencyKey B) → List (IdempotencyKey B)
  delete_key k [] = []
  delete_key k (r ∷ rows) = if same_key k r.key then delete_key k rows else r ∷ delete_key k rows

  abbrev pub is_expired : ℕ → IdempotencyKey B → Bool
  is_expired now r = ltb r.expires_at now

  -- `get_cached_response`, for a key that is given: an expired row is deleted.
  unfoldable pub get_cached_response :
      ℕ × ℕ → ℕ → List (IdempotencyKey B) → Option (CachedResponse B) × List (IdempotencyKey B)
  get_cached_response k now rows = elim (find_key k rows) [
    | none ↦ (none, rows)
    | some r ↦
        if is_expired now r
        then (none, delete_key k rows)
        else (some (record { status = r.response_status; body = r.response_body }), rows)
  ]

  -- `store_response`, for a key that is given: the primary key refuses a second row.
  unfoldable pub store_response :
      ℕ × ℕ → ℕ → ℕ → B → ℕ → ℕ → Action (List (IdempotencyKey B)) StoreError Unit
  store_response k endpoint status body ttl_seconds now rows = elim (find_key k rows) [
    | some _ ↦ (err key_exists, rows)
    | none ↦ (
      ok tt,
      record {
        key = k;
        endpoint = endpoint;
        response_status = status;
        response_body = body;
        created_at = now;
        expires_at = now + ttl_seconds;
      }
          ∷ rows,
    )
  ]

  -- `cleanup_expired`
  unfoldable pub cleanup_expired : ℕ → List (IdempotencyKey B) → ℕ × List (IdempotencyKey B)
  cleanup_expired now rows = (count (is_expired now) rows, keep (λ r. not (is_expired now r)) rows)

  -- `check_idempotency`
  unfoldable pub check_idempotency :
      Option ℕ → ℕ → ℕ → List (IdempotencyKey B) → Option B × List (IdempotencyKey B)
  check_idempotency none version now rows = (none, rows)
  check_idempotency (some key) version now rows =
      let (cached, rows') = get_cached_response (key, version) now rows in
      elim cached [ none ↦ (none, rows') | some c ↦ (some c.body, rows') ]

  -- `store_idempotency`
  unfoldable pub store_idempotency :
      Option ℕ → ℕ → B → ℕ → Action (List (IdempotencyKey B)) StoreError Unit
  store_idempotency none version result now rows = (ok tt, rows)
  store_idempotency (some key) version result now rows =
      store_response (key, version) deploy_endpoint 200 result default_ttl_seconds now rows
