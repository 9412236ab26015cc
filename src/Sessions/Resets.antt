-- ===== src/Sessions/Resets.antt =====
-- Password-reset tokens (app/services/auth_service.py): one works once, and in time.
use defnex_mlops.Base.{
  ℕ, List, ◌≡◌, none, some, false, ◌++◌, true, ◌∷◌, ◌≤◌, Option-cases, [], arith, ◌+◌, inl, inr,
  refl, ◌||◌, ltb, Option, if◌then◌else◌, ◌==◌,
}
use defnex_mlops.Sessions.{Accounts, PasswordResetToken, User, get_user_by_id}

-- `PASSWORD_RESET_TOKEN_TTL_MINUTES`, in seconds.
abbrev pub password_reset_ttl : ℕ
password_reset_ttl = 1800

-- `create_password_reset_token`, with the token that `secrets` drew.
unfoldable pub create_password_reset_token : ℕ → ℕ → User → Accounts → Accounts
create_password_reset_token now token user db = record db {
  resets =
      db.resets
      ++ record {
        token = token;
        user_id = user.id;
        used = false;
        created_at = now;
        expires_at = now + password_reset_ttl;
      }
        ∷ [];
}

abbrev pub get_reset : ℕ → List PasswordResetToken → Option PasswordResetToken
get_reset k [] = none
get_reset k (r ∷ rs) = if k == r.token then some r else get_reset k rs

abbrev pub use_reset : ℕ → List PasswordResetToken → List PasswordResetToken
use_reset k [] = []
use_reset k (r ∷ rs) = if k == r.token then record r { used = true } ∷ rs else r ∷ use_reset k rs

-- `consume_password_reset_token`
unfoldable pub consume_password_reset_token : ℕ → ℕ → Accounts → Option User × Accounts
consume_password_reset_token now token db = elim (get_reset token db.resets) [
  | none ↦ (none, db)
  | some row ↦
      if row.used || ltb row.expires_at now
      then (none, db)
      else (get_user_by_id row.user_id db.users, record db { resets = use_reset token db.resets })
]

get_reset-use_reset :
    (k : ℕ) (rs : List PasswordResetToken) (r : PasswordResetToken)
    → get_reset k rs ≡ some r
    → get_reset k (use_reset k rs) ≡ some (record r { used = true })
get_reset-use_reset k [] r h = cc
get_reset-use_reset k (x ∷ rs) r h = ground (arith, get_reset-use_reset k rs r)

-- A reset that names a user was of an unused token, at most half an hour after it was created as
-- its row says; after it, the same token names nobody at any time, and writes nothing.
pub consume_once :
    (now now' token : ℕ) (db : Accounts) (user : User)
    → (consume_password_reset_token now token db).0 ≡ some user
    → let db' = (consume_password_reset_token now token db).1 in
      (row : PasswordResetToken) × (get_reset token db.resets ≡ some row)
      × (row.used ≡ false)
      × (now ≤ row.expires_at)
      × (get_user_by_id row.user_id db.users ≡ some user)
      × (consume_password_reset_token now' token db' ≡ (none, db'))
unfolding consume_password_reset_token
consume_once now now' token db user h = elim (Option-cases (get_reset token db.resets)) [
  | inl e ↦ ground arith
  | inr (row, e) ↦
      let after = get_reset-use_reset token db.resets row e in
      let valid : (row.used || ltb row.expires_at now) ≡ false = ground arith in
      (row, e, ground arith, ground arith, ground arith, ground (arith, after))
]

get_reset-append :
    (k : ℕ) (rs : List PasswordResetToken) (r : PasswordResetToken)
    → get_reset k rs ≡ none
    → r.token ≡ k
    → get_reset k (rs ++ r ∷ []) ≡ some r
get_reset-append k [] r h e = ground arith
get_reset-append k (x ∷ rs) r h e = ground (arith, get_reset-append k rs r)

-- A reset token that was drawn afresh names the user it was created for, for half an hour.
pub create-consume :
    (now later token : ℕ) (user : User) (db : Accounts)
    → get_reset token db.resets ≡ none
    → get_user_by_id user.id db.users ≡ some user
    → later ≤ now + password_reset_ttl
    → (consume_password_reset_token later token (create_password_reset_token now token user db)).0
      ≡ some user
unfolding consume_password_reset_token create_password_reset_token
create-consume now later token user db free known le =
    let row : PasswordResetToken = record {
      token = token;
      user_id = user.id;
      used = false;
      created_at = now;
      expires_at = now + password_reset_ttl;
    } in
    ground (arith, get_reset-append token db.resets row free refl)
