-- ===== src/RunCreation/Replay.antt =====
-- A retried request for a run returns the first run and creates no second one.
use defnex_mlops.Base.{
  ℕ, false, List, ◌≡◌, ◌≤◌, ◌+◌, arith, none, some, Result, ok, err, inl, inr, refl, ap, sym, ◌∙◌,
  Option-cases, Result-cases, ltb,
}
use mathlib.Core.Path.{subst}
use defnex_mlops.Text.{Text}
use defnex_mlops.Validation.Gate.{ok_injective}
use defnex_mlops.Idempotency.{
  IdempotencyKey, find_key, get_cached_response, store_response, default_ttl_seconds,
}
use defnex_mlops.Idempotency.Replay.{find_first}
use defnex_mlops.RunCreation.{
  PinnedRun, RunRequest, CreationDb, CreationError, create_checked, remember_response,
  create_training_run, with_keys,
}

-- A response that was stored is found until it expires.
module _ {B : Type 0} where
  store-get_cached_response :
      (k : ℕ × ℕ) (endpoint status ttl now later : ℕ) (b : B) (rows : List (IdempotencyKey B))
      (u : Unit)
      → (store_response k endpoint status b ttl now rows).0 ≡ ok u
      → later ≤ now + ttl
      → get_cached_response k later (store_response k endpoint status b ttl now rows).1 ≡ (
        some (record { status = status; body = b }),
        (store_response k endpoint status b ttl now rows).1,
      )
  unfolding store_response get_cached_response
  store-get_cached_response k endpoint status ttl now later b rows u h soon =
      elim (Option-cases (find_key k rows)) [
        | inr (r, e) ↦ absurd (let h' = rw (e, store_response) at h in cc h')
        | inl e ↦
            let row : IdempotencyKey B = record {
              key = k;
              endpoint = endpoint;
              response_status = status;
              response_body = b;
              created_at = now;
              expires_at = now + ttl;
            } in
            let found = find_first row rows in
            let alive : ltb (now + ttl) later ≡ false = ground arith in
            rw (e, store_response) (rw (found, get_cached_response) (rw alive refl))
      ]

module _ (spell : ℕ → Text) where
  remember_response-ok :
      (key now : ℕ) (x : Result CreationError PinnedRun × CreationDb) (r : PinnedRun)
      → (remember_response spell key now x).0 ≡ ok r
      → (x.0 ≡ ok r)
        × ((u : Unit) × ((store_response (key, 0) 1 201 r default_ttl_seconds now x.1.keys).0
              ≡ ok u))
        × ((remember_response spell key now x).1
            ≡ with_keys spell
                (store_response (key, 0) 1 201 r default_ttl_seconds now x.1.keys).1
                x.1)
  unfolding remember_response
  remember_response-ok key now (err e, db) r h = cc
  remember_response-ok key now (ok a, db) r h =
      elim (Result-cases (store_response (key, 0) 1 201 a default_ttl_seconds now db.keys).0) [
        | inr (e, f) ↦ absurd (let h' = rw (f, remember_response) at h in cc h')
        | inl (u, f) ↦
            let h' = rw (f, remember_response) at h in
            let same : a ≡ r = ok_injective a r _ refl h' in
            (
              ap ok same,
              (
                u,
                subst
                    (λ y.
                      (store_response (key, 0) 1 201 y default_ttl_seconds now db.keys).0 ≡ ok u)
                    same f,
              ),
              ap
                  (λ y.
                    with_keys spell
                      (store_response (key, 0) 1 201 y default_ttl_seconds now db.keys).1 db)
                  same,
            )
      ]

  cached_answer :
      (key k later : ℕ) (q : RunRequest) (db : CreationDb) (r : PinnedRun) (status : ℕ)
      → get_cached_response (key, 0) later db.keys
        ≡ (some (record { status = status; body = r }), db.keys)
      → create_training_run spell (some key) k later q db ≡ (ok r, db)
  unfolding create_training_run
  cached_answer key k later q db r status found =
      ap
        (λ y. elim y.0 [
          | some c ↦ (ok c.body, with_keys spell y.1 db)
          | none ↦
              remember_response spell key later
                (create_checked spell k later q (with_keys spell y.1 db))
        ])
        found

  -- A second request with the key of one that created a run, within the hour, returns that run and
  -- creates none, whatever it asks for.
  pub create_training_run-Replayed :
      (key k k' now later : ℕ) (q q' : RunRequest) (db : CreationDb) (r : PinnedRun)
      → (get_cached_response (key, 0) now db.keys).0 ≡ none
      → (create_training_run spell (some key) k now q db).0 ≡ ok r
      → later ≤ now + default_ttl_seconds
      → let db' = (create_training_run spell (some key) k now q db).1 in
        create_training_run spell (some key) k' later q' db' ≡ (ok r, db')
  unfolding create_training_run
  create_training_run-Replayed key k k' now later q q' db r miss h soon =
      let keys = (get_cached_response (key, 0) now db.keys).1 in
      let x = create_checked spell k now q (with_keys spell keys db) in
      let first : create_training_run spell (some key) k now q db
          ≡ remember_response spell key now x =
        rw (miss, create_training_run) refl in
      let (made, (u, stored), after) =
        remember_response-ok key now x r (ap (λ y. y.0) (sym first) ∙ h) in
      let rows = (store_response (key, 0) 1 201 r default_ttl_seconds now x.1.keys).1 in
      let found =
        store-get_cached_response (key, 0) 1 201 default_ttl_seconds now later r x.1.keys u stored
          soon in
      subst (λ d. create_training_run spell (some key) k' later q' d ≡ (ok r, d))
        (sym (ap (λ y. y.1) first ∙ after))
        (cached_answer key k' later q' (with_keys spell rows x.1) r 201 found)
