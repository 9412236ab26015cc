-- ===== src/Idempotency/Replay.antt =====
-- A stored response is replayed within its hour, and an expired one is forgotten.
use defnex_mlops.Base.{
  ◌∷◌, ℕ, List, ◌≡◌, none, true, Bool-cases, Option-cases, arith, ok, inl, refl, inr, [], some,
  if◌then◌else◌, leb, ◌+◌, ltb, false,
}
use defnex_mlops.Idempotency.{
  IdempotencyKey, find_key, get_cached_response, same_key, store_response, delete_key, is_expired,
  check_idempotency, store_idempotency, default_ttl_seconds, deploy_endpoint,
}

same_key_refl : (k : ℕ × ℕ) → same_key k k ≡ true
unfolding same_key
same_key_refl (a, b) = ground arith

module _ {B : Type 0} where
  find-delete : (k : ℕ × ℕ) (rows : List (IdempotencyKey B)) → find_key k (delete_key k rows) ≡ none
  unfolding find_key delete_key
  find-delete k [] = refl
  find-delete k (r ∷ rows) = elim (Bool-cases (same_key k r.key)) [
    | inl e ↦ rw (e, delete_key) (find-delete k rows)
    | inr e ↦ rw (e, delete_key) (rw e (find-delete k rows))
  ]

  -- After a miss the key is free: a stale row of it is gone.
  pub miss_is_free :
      (k : ℕ × ℕ) (now : ℕ) (rows : List (IdempotencyKey B))
      → (get_cached_response k now rows).0 ≡ none
      → find_key k (get_cached_response k now rows).1 ≡ none
  unfolding get_cached_response
  miss_is_free k now rows h = elim (Option-cases (find_key k rows)) [
    | inl e ↦ rw (e, get_cached_response) e
    | inr (r, e) ↦ elim (Bool-cases (is_expired now r)) [
      | inl x ↦ rw (e, x, get_cached_response) (find-delete k rows)
      | inr x ↦ absurd (let h' = rw (e, x, get_cached_response) at h in cc h')
    ]
  ]

  check-get :
      (key version now : ℕ) (rows : List (IdempotencyKey B))
      → (check_idempotency (some key) version now rows).0 ≡ none
      → ((get_cached_response (key, version) now rows).0 ≡ none)
        × ((check_idempotency (some key) version now rows).1
            ≡ (get_cached_response (key, version) now rows).1)
  unfolding check_idempotency
  check-get key version now rows h =
      elim (Option-cases (get_cached_response (key, version) now rows).0) [
        | inl e ↦ (e, rw (e, check_idempotency) refl)
        | inr (c, e) ↦ absurd (let h' = rw (e, check_idempotency) at h in cc h')
      ]

  pub find_first :
      (r : IdempotencyKey B) (rows : List (IdempotencyKey B)) → find_key r.key (r ∷ rows) ≡ some r
  unfolding find_key
  find_first r rows = rw (same_key_refl r.key) refl

  check_first :
      (key version later : ℕ) (r : IdempotencyKey B) (rows : List (IdempotencyKey B))
      → find_key (key, version) (r ∷ rows) ≡ some r
      → (check_idempotency (some key) version later (r ∷ rows)).0
        ≡ (if leb later r.expires_at then some r.response_body else none)
  unfolding check_idempotency get_cached_response
  check_first key version later r rows h = elim (Bool-cases (ltb r.expires_at later)) [
    | inl late ↦
        let over : leb later r.expires_at ≡ false = ground arith in
        rw (h, late, over, get_cached_response, check_idempotency) refl
    | inr fresh ↦
        let over : leb later r.expires_at ≡ true = ground arith in
        rw (h, fresh, over, get_cached_response, check_idempotency) refl
  ]

  check-stored :
      (key version : ℕ) (result : B) (now later : ℕ) (rows : List (IdempotencyKey B))
      → find_key (key, version) rows ≡ none
      → let (stored, kept) = store_idempotency (some key) version result now rows in
        (stored ≡ ok tt)
        × ((check_idempotency (some key) version later kept).0
            ≡ (if leb later (now + default_ttl_seconds) then some result else none))
  unfolding store_idempotency store_response
  check-stored key version result now later rows h =
      let row : IdempotencyKey B = record {
        key = (key, version);
        endpoint = deploy_endpoint;
        response_status = 200;
        response_body = result;
        created_at = now;
        expires_at = now + default_ttl_seconds;
      } in
      rw (h, store_response) (refl, check_first key version later row rows (find_first row rows))

  -- After a check that finds nothing, an expired row included, the result of the deploy is stored under
  -- the key; a check of the same key and version then replays it for 3600 seconds, and no longer.
  pub check-store :
      (key version : ℕ) (result : B) (now later : ℕ) (rows : List (IdempotencyKey B))
      → (check_idempotency (some key) version now rows).0 ≡ none
      → let (_, missed) = check_idempotency (some key) version now rows in
        let (stored, kept) = store_idempotency (some key) version result now missed in
        (stored ≡ ok tt)
        × ((check_idempotency (some key) version later kept).0
            ≡ (if leb later (now + default_ttl_seconds) then some result else none))
  check-store key version result now later rows h =
      let (missed, same) = check-get key version now rows h in
      rw same (
        check-stored key version result now later (get_cached_response (key, version) now rows).1
          (miss_is_free (key, version) now rows missed))
