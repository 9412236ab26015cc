-- ===== src/Sessions/Payloads.antt =====
-- The rotation of a payload that was already decoded.
use defnex_mlops.Base.{
  ℕ, List, get_or, ◌≡◌, none, true, ==_refl, some, ◌++◌, Bool-cases, ◌∷◌, [], inl, inr, ◌||◌, arith,
  refl, ◌+◌, Option, false, Option-cases,
}
use defnex_mlops.Sessions.{
  Jwt, Jti, Payload, revoke_refresh_family, Lifetimes, same_jti, Accounts, RevokedRefreshToken,
  is_refresh_jti_used, token_jti, family_marker, Draw, mark_refresh_jti_used, rotate_known, User,
  refresh, get_user_by_id, Login, rotate_payload, login,
}

-- The family of a token, with the family of one for a token without.
abbrev pub family_of : Payload → ℕ → ℕ
family_of p j = get_or p.family_id j

is_refresh_jti_used-append :
    (j : Jti) (rs : List RevokedRefreshToken) (r : RevokedRefreshToken)
    → is_refresh_jti_used j (rs ++ r ∷ []) ≡ (is_refresh_jti_used j rs || same_jti j r.jti)
is_refresh_jti_used-append j [] r = ground arith
is_refresh_jti_used-append j (x ∷ rs) r = ground (arith, is_refresh_jti_used-append j rs r)

same_jti_refl : (j : Jti) → same_jti j j ≡ true
same_jti_refl (token_jti a) = ==_refl a
same_jti_refl (family_marker a) = ==_refl a

pub revoke_refresh_family_used :
    (l : Lifetimes) (now family : ℕ) (db : Accounts)
    → is_refresh_jti_used (family_marker family) (revoke_refresh_family l now family db).revoked
      ≡ true
unfolding revoke_refresh_family
revoke_refresh_family_used l now family db =
    elim (Bool-cases (is_refresh_jti_used (family_marker family) db.revoked)) [
      | inl e ↦ rw (e, e) refl
      | inr e ↦ ground (
        arith,
        is_refresh_jti_used-append (family_marker family) db.revoked (record {
          jti = family_marker family;
          family_id = family;
          revoked_at = now;
          expires_at = now + l.jwt_refresh_expire;
        }),
        ==_refl family,
      )
    ]

module _ {T : Type 0} (jwt : Jwt T) (l : Lifetimes) where
  known_used :
      (now : ℕ) (draw : Draw) (user : User) (j family : ℕ) (exp : Option ℕ) (db : Accounts)
      → is_refresh_jti_used (token_jti j) db.revoked ≡ true
      → let (r, db') = rotate_known jwt l now draw user j family exp db in
        (r ≡ none) × (is_refresh_jti_used (family_marker family) db'.revoked ≡ true)
  unfolding rotate_known
  known_used now draw user j family exp db h =
      elim (Bool-cases (is_refresh_jti_used (family_marker family) db.revoked)) [
        | inl e ↦ ground arith
        | inr e ↦ ground (arith, revoke_refresh_family_used l now family db)
      ]

  pub mark_used :
      (now j family : ℕ) (exp : Option ℕ) (db : Accounts)
      → is_refresh_jti_used (token_jti j) (mark_refresh_jti_used l now j family exp db).revoked
        ≡ true
  unfolding mark_refresh_jti_used
  mark_used now j family exp db = ground (
    arith,
    is_refresh_jti_used-append (token_jti j) db.revoked (record {
      jti = token_jti j;
      family_id = family;
      revoked_at = now;
      expires_at = get_or exp (now + l.jwt_refresh_expire);
    }),
    ==_refl j,
  )

  -- What a rotation that succeeds says of the token that was presented, and does.
  pub record Rotates (now : ℕ) (draw : Draw) (p : Payload) (db : Accounts) (x : Login T)
      (db' : Accounts) : Type 0 where
    pub j : ℕ
    pub k : ℕ
    pub user : User
    pub is_refresh : p.token_type ≡ refresh
    pub has_jti : p.jti ≡ some j
    pub has_sub : p.sub ≡ some k
    pub knows_user : get_user_by_id k db.users ≡ some user
    pub live : is_refresh_jti_used (family_marker (family_of p j)) db.revoked ≡ false
    pub unused : is_refresh_jti_used (token_jti j) db.revoked ≡ false
    pub is_login : x ≡ login jwt l now draw user (family_of p j)
    pub after : db' ≡ mark_refresh_jti_used l now j (family_of p j) p.exp db

  known-Rotates :
      (now : ℕ) (draw : Draw) (p : Payload) (db : Accounts) (x : Login T) (user : User) (j k : ℕ)
      → p.token_type ≡ refresh
      → p.jti ≡ some j
      → p.sub ≡ some k
      → get_user_by_id k db.users ≡ some user
      → (rotate_known jwt l now draw user j (family_of p j) p.exp db).0 ≡ some x
      → Rotates now draw p db x (rotate_known jwt l now draw user j (family_of p j) p.exp db).1
  unfolding rotate_known
  known-Rotates now draw p db x user j k t hj hk hu h =
      elim (Bool-cases (is_refresh_jti_used (family_marker (family_of p j)) db.revoked)) [
        | inl e ↦ ground arith
        | inr e ↦ elim (Bool-cases (is_refresh_jti_used (token_jti j) db.revoked)) [
          | inl e' ↦ ground arith
          | inr e' ↦ record {
            j = j;
            k = k;
            user = user;
            is_refresh = t;
            has_jti = hj;
            has_sub = hk;
            knows_user = hu;
            live = e;
            unused = e';
            is_login = ground arith;
            after = ground arith;
          }
        ]
      ]

  -- Every way in which a rotation fails before it looks at the family is a `none`.
  pub rotate_payload-Rotates :
      (now : ℕ) (draw : Draw) (p : Payload) (db : Accounts) (x : Login T)
      → (rotate_payload jwt l now draw p db).0 ≡ some x
      → Rotates now draw p db x (rotate_payload jwt l now draw p db).1
  unfolding rotate_payload
  rotate_payload-Rotates now draw p db x h = elim (Option-cases p.jti) [
    | inl e ↦ ground arith
    | inr (j, e) ↦ elim (Option-cases p.sub) [
      | inl e' ↦ ground arith
      | inr (k, e') ↦ elim (Option-cases (get_user_by_id k db.users)) [
        | inl u ↦ ground arith
        | inr (user, u) ↦
            let t : p.token_type ≡ refresh = ground arith in
            let known = rotate_known jwt l now draw user j (family_of p j) p.exp db in
            let same : rotate_payload jwt l now draw p db ≡ known = ground arith in
            rw same (known-Rotates now draw p db x user j k t e e' u (rw same at h))
      ]
    ]
  ]

  -- On a token whose `jti` was used, or whose family is revoked, nothing is issued.
  pub rotate_payload_used :
      (now : ℕ) (draw : Draw) (p : Payload) (db : Accounts) (j k : ℕ) (user : User)
      → p.token_type ≡ refresh
      → p.jti ≡ some j
      → p.sub ≡ some k
      → get_user_by_id k db.users ≡ some user
      → is_refresh_jti_used (token_jti j) db.revoked ≡ true
      → let (r, db') = rotate_payload jwt l now draw p db in
        (r ≡ none) × (is_refresh_jti_used (family_marker (family_of p j)) db'.revoked ≡ true)
  unfolding rotate_payload
  rotate_payload_used now draw p db j k user t hj hk hu h =
      ground (arith, known_used now draw user j (family_of p j) p.exp db h)

  pub rotate_payload_revoked :
      (now : ℕ) (draw : Draw) (p : Payload) (db : Accounts)
      → ((j : ℕ)
          → p.jti ≡ some j
          → is_refresh_jti_used (family_marker (family_of p j)) db.revoked ≡ true)
      → rotate_payload jwt l now draw p db ≡ (none, db)
  unfolding rotate_payload rotate_known
  rotate_payload_revoked now draw p db h = elim (Option-cases p.jti) [
    | inl e ↦ ground arith
    | inr (j, e) ↦ let dead = h j e in ground arith
  ]
