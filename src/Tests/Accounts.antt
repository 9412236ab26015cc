-- ===== src/Tests/Accounts.antt =====
-- A login, its rotation and the theft of its refresh token, and a password reset.
use defnex_mlops.Base.{
  ℕ, Bool-cases, Option, none, ◌*◌, ◌∷◌, ◌≡◌, [], false, if◌then◌else◌, refl, some, ◌+◌, arith, ltb,
  true, inl, inr,
}
use defnex_mlops.Sessions.{
  Jwt, Accounts, Draw, Lifetimes, Login, Payload, User, revoke_refresh_family, rotate_refresh_token,
  PasswordResetToken, is_refresh_jti_used, login, refresh_payload, family_marker, get_user_by_id,
}
use defnex_mlops.Sessions.Resets.{consume_password_reset_token, create_password_reset_token}
use defnex_mlops.Sessions.Rotation.{Signs, rotate_refresh_token_single_use, reuse_kills_successor}
use defnex_mlops.Sessions.Payloads.{family_of}

-- Tokens that are their own claims.
abbrev decode_claims : ℕ → Payload → Option Payload
decode_claims now p = if (elim p.exp [ none ↦ false | some e ↦ ltb e now ]) then none else some p

abbrev pub plain : Jwt Payload
plain = record { encode = λ p. p; decode = decode_claims }

plain-Signs : Signs plain
plain-Signs = record {
  genuine = λ now p. elim (Bool-cases (elim p.exp [ none ↦ false | some e ↦ ltb e now ])) [
    | inl e ↦ inl (rw e refl)
    | inr e ↦ inr (rw e refl)
  ];
  unexpired = λ now e p h le. ground arith;
}

abbrev pub lifetimes : Lifetimes
lifetimes = record { jwt_expire = 900; jwt_refresh_expire = 86400 }

abbrev pub alice : User
alice = record { id = 4; role = 1 }

abbrev pub accounts : Accounts
accounts = record { users = alice ∷ []; revoked = []; resets = [] }

abbrev pub draw : ℕ → Draw
draw k = record { access_jti = 2 * k; refresh_jti = 2 * k + 1 }

-- The refresh token of a login at time 0, in the family 50.
abbrev pub presented : Payload
presented = refresh_payload lifetimes 0 (draw 1) alice 50

abbrev second : Login Payload
second = login plain lifetimes 10 (draw 2) alice 50

rotates : (rotate_refresh_token plain lifetimes 10 (draw 2) presented accounts).0 ≡ some second
unfolding rotate_refresh_token defnex_mlops.Sessions.rotate_payload
    defnex_mlops.Sessions.rotate_known
rotates = refl

rotate_refresh_token_single_use_example :
    let db' = (rotate_refresh_token plain lifetimes 10 (draw 2) presented accounts).1 in
    let (r, db'') = rotate_refresh_token plain lifetimes 20 (draw 3) presented db' in
    (j : ℕ) × (presented.jti ≡ some j)
    × (r ≡ none)
    × (is_refresh_jti_used (family_marker (family_of presented j)) db''.revoked ≡ true)
rotate_refresh_token_single_use_example =
    rotate_refresh_token_single_use plain lifetimes 10 20 (draw 2) (draw 3) presented presented
      accounts second refl refl rotates

abbrev logged_out : Accounts
logged_out = revoke_refresh_family lifetimes 5 50 accounts

family_is_revoked : is_refresh_jti_used (family_marker 50) logged_out.revoked ≡ true
unfolding revoke_refresh_family
family_is_revoked = refl

reuse_kills_successor_example :
    let db' = (rotate_refresh_token plain lifetimes 10 (draw 2) presented accounts).1 in
    let db'' = (rotate_refresh_token plain lifetimes 20 (draw 3) presented db').1 in
    rotate_refresh_token plain lifetimes 30 (draw 4) second.refresh_token db'' ≡ (none, db'')
reuse_kills_successor_example =
    reuse_kills_successor plain lifetimes plain-Signs 10 20 30 (draw 2) (draw 3) (draw 4) presented
      presented accounts second refl refl rotates

abbrev awaiting : Accounts
awaiting = create_password_reset_token 100 77 alice accounts

reset_names_alice : (consume_password_reset_token 200 77 awaiting).0 ≡ some alice
unfolding consume_password_reset_token create_password_reset_token
reset_names_alice = refl
