-- ===== src/Sessions/Rotation.antt =====
-- A refresh token rotates once; a second use ends the session for everybody.
use defnex_mlops.Base.{
  ℕ, ◌≡◌, none, true, ◌⊎◌, some, ◌≤◌, inl, inr, arith, refl, ◌+◌, false, ◌∙◌, ap,
}
use defnex_mlops.Sessions.{
  Jwt, Payload, Lifetimes, Accounts, is_refresh_jti_used, token_jti, family_marker, Draw,
  mark_refresh_jti_used, rotate_known, User, get_user_by_id, issue_token_pair, Login,
  rotate_payload, login, rotate_refresh_token, refresh_payload,
}
use mathlib.Core.Path.{subst}
use defnex_mlops.Sessions.Payloads.{
  family_of, rotate_payload-Rotates, rotate_payload_revoked, rotate_payload_used, mark_used,
}

-- What the signatures promise: an encoded token decodes to its own claims or, once it has expired,
-- to nothing; and it has not expired before its `exp`.
pub record Signs {T : Type 0} (jwt : Jwt T) : Type 0 where
  pub genuine :
      (now : ℕ) (p : Payload)
      → (jwt.decode now (jwt.encode p) ≡ none) ⊎ (jwt.decode now (jwt.encode p) ≡ some p)
  pub unexpired :
      (now e : ℕ) (p : Payload) → p.exp ≡ some e → now ≤ e → jwt.decode now (jwt.encode p) ≡ some p

module _ {T : Type 0} (jwt : Jwt T) (l : Lifetimes) where
  rotate_decoded :
      (now : ℕ) (draw : Draw) (token : T) (p : Payload) (db : Accounts)
      → jwt.decode now token ≡ some p
      → rotate_refresh_token jwt l now draw token db ≡ rotate_payload jwt l now draw p db
  unfolding rotate_refresh_token
  rotate_decoded now draw token p db h = ground arith

  rotate_undecoded :
      (now : ℕ) (draw : Draw) (token : T) (db : Accounts)
      → jwt.decode now token ≡ none
      → rotate_refresh_token jwt l now draw token db ≡ (none, db)
  unfolding rotate_refresh_token
  rotate_undecoded now draw token db h = ground arith

  refresh_payload_live :
      (now later : ℕ) (draw draw' : Draw) (user : User) (family : ℕ) (db : Accounts)
      → get_user_by_id user.id db.users ≡ some user
      → is_refresh_jti_used (family_marker family) db.revoked ≡ false
      → is_refresh_jti_used (token_jti draw.refresh_jti) db.revoked ≡ false
      → (rotate_payload jwt l later draw' (refresh_payload l now draw user family) db).0
        ≡ some (login jwt l later draw' user family)
  unfolding rotate_payload rotate_known
  refresh_payload_live now later draw draw' user family db known live unused = ground arith

  -- After a rotation that succeeded, the same token is refused, and the attempt revokes its family.
  rotated_payload_refused :
      (now now' : ℕ) (draw draw' : Draw) (p : Payload) (db : Accounts) (x : Login T)
      → (rotate_payload jwt l now draw p db).0 ≡ some x
      → let db' = (rotate_payload jwt l now draw p db).1 in
        let (r, db'') = rotate_payload jwt l now' draw' p db' in
        (j : ℕ) × (p.jti ≡ some j)
        × (r ≡ none)
        × (is_refresh_jti_used (family_marker (family_of p j)) db''.revoked ≡ true)
  unfolding mark_refresh_jti_used
  rotated_payload_refused now now' draw draw' p db x h =
      let won = rotate_payload-Rotates jwt l now draw p db x h in
      let db' = (rotate_payload jwt l now draw p db).1 in
      let users : db'.users ≡ db.users = rw won.after refl in
      let again =
        rotate_payload_used jwt l now' draw' p db' won.j won.k won.user won.is_refresh won.has_jti
          won.has_sub (rw users won.knows_user)
          (rw won.after (mark_used jwt l now won.j (family_of p won.j) p.exp db)) in
      (won.j, won.has_jti, again.0, again.1)

  -- A refresh token is good for one rotation: presented again, at any time at which it still
  -- decodes, it is refused, and its whole family is revoked from then on.
  pub rotate_refresh_token_single_use :
      (now now' : ℕ) (draw draw' : Draw) (token : T) (p : Payload) (db : Accounts) (x : Login T)
      → jwt.decode now token ≡ some p
      → jwt.decode now' token ≡ some p
      → (rotate_refresh_token jwt l now draw token db).0 ≡ some x
      → let db' = (rotate_refresh_token jwt l now draw token db).1 in
        let (r, db'') = rotate_refresh_token jwt l now' draw' token db' in
        (j : ℕ) × (p.jti ≡ some j)
        × (r ≡ none)
        × (is_refresh_jti_used (family_marker (family_of p j)) db''.revoked ≡ true)
  rotate_refresh_token_single_use now now' draw draw' token p db x d d' h =
      let e = rotate_decoded now draw token p db d in
      let e' =
        rotate_decoded now' draw' token p (rotate_refresh_token jwt l now draw token db).1 d' in
      rw (e', e) (rotated_payload_refused now now' draw draw' p db x (rw e at h))

  -- No token of a revoked family rotates, and the attempt changes nothing.
  pub revoked_family_refused :
      (now : ℕ) (draw : Draw) (token : T) (j : ℕ) (p : Payload) (db : Accounts)
      → jwt.decode now token ≡ some p
      → p.jti ≡ some j
      → is_refresh_jti_used (family_marker (family_of p j)) db.revoked ≡ true
      → rotate_refresh_token jwt l now draw token db ≡ (none, db)
  revoked_family_refused now draw token j p db d hj dead =
      rotate_decoded now draw token p db d
      ∙ rotate_payload_revoked jwt l now draw p db (λ i hi. ground arith)

  -- Once a rotated token is presented again, the token that was issued for it is dead too: whoever
  -- holds the successor, at any later time, gets nothing.
  pub reuse_kills_successor :
      Signs jwt
      → (now now' later : ℕ) (draw draw' draw'' : Draw) (token : T) (p : Payload) (db : Accounts)
        (x : Login T)
      → jwt.decode now token ≡ some p
      → jwt.decode now' token ≡ some p
      → (rotate_refresh_token jwt l now draw token db).0 ≡ some x
      → let db' = (rotate_refresh_token jwt l now draw token db).1 in
        let db'' = (rotate_refresh_token jwt l now' draw' token db').1 in
        rotate_refresh_token jwt l later draw'' x.refresh_token db'' ≡ (none, db'')
  unfolding login issue_token_pair
  reuse_kills_successor sign now now' later draw draw' draw'' token p db x d d' h =
      let db' = (rotate_refresh_token jwt l now draw token db).1 in
      let db'' = (rotate_refresh_token jwt l now' draw' token db').1 in
      let twice = rotate_refresh_token_single_use now now' draw draw' token p db x d d' h in
      let won =
        rotate_payload-Rotates jwt l now draw p db x
          (rw (rotate_decoded now draw token p db d) at h) in
      let successor = refresh_payload l now draw won.user (family_of p won.j) in
      let is : x.refresh_token ≡ jwt.encode successor = ap (λ y. y.refresh_token) won.is_login in
      let same : twice.0 ≡ won.j = ground (arith, twice.1, won.has_jti) in
      elim (sign.genuine later successor) [
        | inl gone ↦
            rotate_undecoded later draw'' x.refresh_token db'' (ap (jwt.decode later) is ∙ gone)
        | inr fresh ↦
            revoked_family_refused later draw'' x.refresh_token draw.refresh_jti successor db''
              (ap (jwt.decode later) is ∙ fresh) refl
              (subst (λ i. is_refresh_jti_used (family_marker (family_of p i)) db''.revoked ≡ true)
                same twice.3)
      ]

  -- The refresh token of a session rotates as long as it has not expired, its user exists, its
  -- family is not revoked and it was not used: nothing else stands in the way.
  pub rotate_refresh_token_live :
      Signs jwt
      → (now later : ℕ) (draw draw' : Draw) (user : User) (family : ℕ) (db : Accounts)
      → later ≤ now + l.jwt_refresh_expire
      → get_user_by_id user.id db.users ≡ some user
      → is_refresh_jti_used (family_marker family) db.revoked ≡ false
      → is_refresh_jti_used (token_jti draw.refresh_jti) db.revoked ≡ false
      → (rotate_refresh_token jwt l later draw'
          (login jwt l now draw user family).refresh_token
          db).0
        ≡ some (login jwt l later draw' user family)
  unfolding login issue_token_pair
  rotate_refresh_token_live sign now later draw draw' user family db le known live unused =
      let p = refresh_payload l now draw user family in
      let d = sign.unexpired later (now + l.jwt_refresh_expire) p refl le in
      rw (rotate_decoded later draw' (jwt.encode p) p db d)
        (refresh_payload_live now later draw draw' user family db known live unused)
