-- ===== src/Access.antt =====
-- Who may call an endpoint, and which slice of a list it returns: app/rbac.py, app/api/deps.py. The
-- roles are free texts, which stand as numbers; the header's bearer token is a `Jwt` token.
pub mod Bearer
pub mod Pages
use defnex_mlops.Base.{
  ℕ, Bool, true, false, List, Option, [], ◌∷◌, ◌||◌, ◌==◌, ◌-◌, ◌*◌, ◌+◌, ◌/◌, ltb, if◌then◌else◌,
  none, some, Result, ok, err, not, suc, zero,
}
use defnex_mlops.Sessions.{Jwt, User, Accounts, Payload, get_user_by_id}

pub data ApiError : Type 0 where
  missing_token invalid_token user_not_found forbidden : ApiError

-- `Role`
abbrev pub admin_role : ℕ
admin_role = 0

abbrev pub ml_engineer_role : ℕ
ml_engineer_role = 1

abbrev pub data_engineer_role : ℕ
data_engineer_role = 2

abbrev pub reviewer_role : ℕ
reviewer_role = 3

abbrev pub plain_user_role : ℕ
plain_user_role = 4

pub data Permission : Type 0 where
  may_promote may_validate_staging may_deploy may_rollback may_write_infra_credential : Permission

abbrev pub permission_code : Permission → ℕ
permission_code may_promote = 0
permission_code may_validate_staging = 1
permission_code may_deploy = 2
permission_code may_rollback = 3
permission_code may_write_infra_credential = 4

-- `ROLE_PERMISSIONS`
abbrev pub role_permissions_table : List (ℕ × List Permission)
role_permissions_table =
    (
      admin_role,
      may_promote ∷ may_validate_staging ∷ may_deploy ∷ may_rollback ∷ may_write_infra_credential
          ∷ [],
    )
    ∷ (ml_engineer_role, may_promote ∷ may_deploy ∷ may_rollback ∷ [])
    ∷ (data_engineer_role, [])
    ∷ (reviewer_role, may_validate_staging ∷ [])
    ∷ (plain_user_role, [])
    ∷ []

-- `ROLE_PERMISSIONS.get(role, set())`
unfoldable pub role_permissions : ℕ → List (ℕ × List Permission) → List Permission
role_permissions role [] = []
role_permissions role ((name, permissions) ∷ rest) =
    if role == name then permissions else role_permissions role rest

unfoldable pub holds : Permission → List Permission → Bool
holds p [] = false
holds p (q ∷ qs) = permission_code p == permission_code q || holds p qs

-- `has_permission`
unfoldable pub has_permission : ℕ → Permission → Bool
has_permission role p = holds p (role_permissions role role_permissions_table)

module _ {T : Type 0} (jwt : Jwt T) (now : ℕ) where
  -- `get_current_user`, and `get_current_user_and_token` with the token that it was given.
  unfoldable pub get_current_user : Option T → Accounts → Result ApiError User
  get_current_user none db = err missing_token
  get_current_user (some token) db = elim (jwt.decode now token) [
    | none ↦ err invalid_token
    | some payload ↦ elim payload.sub [
      | none ↦ err invalid_token
      | some k ↦ elim (get_user_by_id k db.users) [ none ↦ err user_not_found | some u ↦ ok u ]
    ]
  ]

  -- `require_admin`
  unfoldable pub require_admin : Option T → Accounts → Result ApiError User
  require_admin token db = elim (get_current_user token db) [
    | err e ↦ err e
    | ok u ↦ if u.role == admin_role then ok u else err forbidden
  ]

  -- `require_permission`
  unfoldable pub require_permission : Permission → Option T → Accounts → Result ApiError User
  require_permission p token db = elim (get_current_user token db) [
    | err e ↦ err e
    | ok u ↦ if has_permission u.role p then ok u else err forbidden
  ]

pub record PaginationParams : Type 0 where
  pub page : ℕ
  pub size : ℕ

unfoldable pub offset : PaginationParams → ℕ
offset pg = (pg.page - 1) * pg.size

-- `math.ceil(total / size) if size > 0 else 0`
unfoldable pub pages_from : ℕ → ℕ → ℕ
pages_from total zero = 0
pages_from total (suc s) = (total + s) / suc s

-- `query.limit(n)` and `query.offset(n)`
unfoldable pub limit_rows : {A : Type 0} → ℕ → List A → List A
limit_rows zero rows = []
limit_rows (suc n) [] = []
limit_rows (suc n) (r ∷ rows) = r ∷ limit_rows n rows

unfoldable pub offset_rows : {A : Type 0} → ℕ → List A → List A
offset_rows zero rows = rows
offset_rows (suc n) [] = []
offset_rows (suc n) (r ∷ rows) = offset_rows n rows

-- The items of a page.
unfoldable pub page_items : {A : Type 0} → PaginationParams → List A → List A
page_items pg rows = limit_rows pg.size (offset_rows (offset pg) rows)
