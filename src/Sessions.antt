-- ===== src/Sessions.antt =====
-- Login sessions (app/services/auth_service.py): token pairs, the rotation of refresh tokens, the
-- revocation of their families, and password-reset tokens.
--
-- The signing of tokens (`jose.jwt`) and the generation of identifiers are outside this code: the
-- first is the parameter `Jwt`, the second are arguments. Clock readings are seconds. An empty
-- string in a payload is falsy like a missing one, and stands as `none`.
pub mod Payloads
pub mod Rotation
pub mod Resets
use defnex_mlops.Base.{
  ℕ, Bool, List, Option, if◌then◌else◌, none, some, ◌++◌, false, get_or, ◌+◌, ◌==◌, ◌||◌, ◌∷◌, [],
  ltb, true,
}

pub data TokenType : Type 0 where
  access refresh : TokenType

-- The claims of a token; `sub` is the user's id.
pub record Payload : Type 0 where
  pub token_type : TokenType
  pub jti : Option ℕ
  pub sub : Option ℕ
  pub role : Option ℕ
  pub family_id : Option ℕ
  pub exp : Option ℕ

-- `jwt.encode` into tokens, and `jwt.decode` at a time: `none` is a `JWTError`.
pub record Jwt (T : Type 0) : Type 0 where
  pub encode : Payload → T
  pub decode : ℕ → T → Option Payload

pub record User : Type 0 where
  pub id : ℕ
  pub role : ℕ

-- The `jti` column of `revoked_refresh_tokens`: that of a token, or `_family_marker` of a family.
-- The two never collide: the one is a UUID in hex, the other starts with `family-revoked:`.
pub data Jti : Type 0 where
  token_jti family_marker : ℕ → Jti

pub record RevokedRefreshToken : Type 0 where
  pub jti : Jti
  pub family_id : ℕ
  pub revoked_at : ℕ
  pub expires_at : ℕ

pub record PasswordResetToken : Type 0 where
  pub token : ℕ
  pub user_id : ℕ
  pub used : Bool
  pub created_at : ℕ
  pub expires_at : ℕ

pub record Accounts : Type 0 where
  pub users : List User
  pub revoked : List RevokedRefreshToken
  pub resets : List PasswordResetToken

-- The lifetimes of the settings, in seconds.
pub record Lifetimes : Type 0 where
  pub jwt_expire : ℕ
  pub jwt_refresh_expire : ℕ

abbrev pub same_jti : Jti → Jti → Bool
same_jti (token_jti a) (token_jti b) = a == b
same_jti (family_marker a) (family_marker b) = a == b
same_jti _ _ = false

abbrev pub get_user_by_id : ℕ → List User → Option User
get_user_by_id k [] = none
get_user_by_id k (u ∷ us) = if k == u.id then some u else get_user_by_id k us

-- `_is_refresh_jti_used`
abbrev pub is_refresh_jti_used : Jti → List RevokedRefreshToken → Bool
is_refresh_jti_used j [] = false
is_refresh_jti_used j (r ∷ rs) = same_jti j r.jti || is_refresh_jti_used j rs

-- `revoke_refresh_family`
unfoldable pub revoke_refresh_family : Lifetimes → ℕ → ℕ → Accounts → Accounts
revoke_refresh_family l now family db =
    if is_refresh_jti_used (family_marker family) db.revoked then db else record db {
      revoked =
          db.revoked
          ++ record {
            jti = family_marker family;
            family_id = family;
            revoked_at = now;
            expires_at = now + l.jwt_refresh_expire;
          }
            ∷ [];
    }

-- `_mark_refresh_jti_used`
unfoldable pub mark_refresh_jti_used : Lifetimes → ℕ → ℕ → ℕ → Option ℕ → Accounts → Accounts
mark_refresh_jti_used l now j family exp db = record db {
  revoked =
      db.revoked
      ++ record {
        jti = token_jti j;
        family_id = family;
        revoked_at = now;
        expires_at = get_or exp (now + l.jwt_refresh_expire);
      }
        ∷ [];
}

-- The identifiers that one request may draw: `uuid4` for each of the tokens it issues.
pub record Draw : Type 0 where
  pub access_jti : ℕ
  pub refresh_jti : ℕ

-- The claims of `create_access_token` and of `create_refresh_token`, for a pair of one family.
abbrev pub access_payload : Lifetimes → ℕ → Draw → User → ℕ → Payload
access_payload l now draw user family = record {
  token_type = access;
  jti = some draw.access_jti;
  sub = some user.id;
  role = some user.role;
  family_id = some family;
  exp = some (now + l.jwt_expire);
}

abbrev pub refresh_payload : Lifetimes → ℕ → Draw → User → ℕ → Payload
refresh_payload l now draw user family = record {
  token_type = refresh;
  jti = some draw.refresh_jti;
  sub = some user.id;
  role = some user.role;
  family_id = some family;
  exp = some (now + l.jwt_refresh_expire);
}

-- `issue_token_pair`
unfoldable pub issue_token_pair : {T : Type 0} → Jwt T → Lifetimes → ℕ → Draw → User → ℕ → T × T
issue_token_pair jwt l now draw user family = (
  jwt.encode (access_payload l now draw user family),
  jwt.encode (refresh_payload l now draw user family),
)

-- What a request that presents a refresh token gets: the user, and a new pair of tokens.
pub record Login (T : Type 0) : Type 0 where
  pub user : User
  pub access_token : T
  pub refresh_token : T

abbrev pub Rotated : Type 0 → Type 0
Rotated T = Option (Login T)

-- The return value of a rotation that succeeds.
unfoldable pub login : {T : Type 0} → Jwt T → Lifetimes → ℕ → Draw → User → ℕ → Login T
login jwt l now draw user family =
    let (access_token, refresh_token) = issue_token_pair jwt l now draw user family in
    record { user = user; access_token = access_token; refresh_token = refresh_token }

-- `rotate_refresh_token` from the query for the family's marker on.
unfoldable pub rotate_known :
    {T : Type 0}
    → Jwt T
    → Lifetimes
    → ℕ
    → Draw
    → User
    → ℕ
    → ℕ
    → Option ℕ
    → Accounts
    → Rotated T × Accounts
rotate_known jwt l now draw user j family exp db =
    if is_refresh_jti_used (family_marker family) db.revoked
    then (none, db)
    else if is_refresh_jti_used (token_jti j) db.revoked
    then (none, revoke_refresh_family l now family db)
    else (some (login jwt l now draw user family), mark_refresh_jti_used l now j family exp db)

-- `rotate_refresh_token` on the claims of the token that was presented.
unfoldable pub rotate_payload :
    {T : Type 0} → Jwt T → Lifetimes → ℕ → Draw → Payload → Accounts → Rotated T × Accounts
rotate_payload jwt l now draw p db = elim p.token_type [
  | access ↦ (none, db)
  | refresh ↦ elim p.jti [
    | none ↦ (none, db)
    | some j ↦ elim p.sub [
      | none ↦ (none, db)
      | some k ↦ elim (get_user_by_id k db.users) [
        | none ↦ (none, db)
        | some user ↦ rotate_known jwt l now draw user j (get_or p.family_id j) p.exp db
      ]
    ]
  ]
]

-- `rotate_refresh_token`
unfoldable pub rotate_refresh_token :
    {T : Type 0} → Jwt T → Lifetimes → ℕ → Draw → T → Accounts → Rotated T × Accounts
rotate_refresh_token jwt l now draw token db = elim (jwt.decode now token) [
  | none ↦ (none, db)
  | some p ↦ rotate_payload jwt l now draw p db
]

-- `revoke_refresh_family_from_access_token`, the effect of a logout.
unfoldable pub revoke_from_access_token :
    {T : Type 0} → Jwt T → Lifetimes → ℕ → T → Accounts → Accounts
revoke_from_access_token jwt l now token db = elim (jwt.decode now token) [
  | none ↦ db
  | some p ↦ elim p.family_id [ none ↦ db | some family ↦ revoke_refresh_family l now family db ]
]
