-- ===== src/Access/Bearer.antt =====
-- What a bearer token grants.
use defnex_mlops.Base.{
  ℕ, true, Option, ◌≡◌, ◌↔◌, arith, none, some, ok, inl, inr, refl, Bool-cases, Option-cases,
  Result-cases, ap, sym, ◌∙◌, suc, zero,
}
use mathlib.Core.Path.{subst}
use defnex_mlops.Sessions.{
  Jwt, User, Accounts, Payload, get_user_by_id, Lifetimes, revoke_refresh_family, refresh,
  is_refresh_jti_used, family_marker,
}
use defnex_mlops.Sessions.{Draw, rotate_refresh_token}
use defnex_mlops.Sessions.Payloads.{revoke_refresh_family_used, family_of}
use defnex_mlops.Sessions.Rotation.{revoked_family_refused}
use defnex_mlops.Access.{
  Permission, may_promote, may_validate_staging, may_deploy, may_rollback,
  may_write_infra_credential, has_permission, holds, role_permissions, get_current_user,
  require_permission,
}

-- The permissions, role by role.
pub data Holds : ℕ → Permission → Type 0 where
  admin_holds : (p : Permission) → Holds 0 p
  engineer_promotes : Holds 1 may_promote
  engineer_deploys : Holds 1 may_deploy
  engineer_rolls_back : Holds 1 may_rollback
  reviewer_validates : Holds 3 may_validate_staging

admin_has_permission : (p : Permission) → has_permission 0 p ≡ true
unfolding has_permission holds role_permissions
admin_has_permission may_promote = refl
admin_has_permission may_validate_staging = refl
admin_has_permission may_deploy = refl
admin_has_permission may_rollback = refl
admin_has_permission may_write_infra_credential = refl

Holds-has_permission : (role : ℕ) (p : Permission) → Holds role p → has_permission role p ≡ true
unfolding has_permission holds role_permissions
Holds-has_permission role p (admin_holds q) = admin_has_permission p
Holds-has_permission role p engineer_promotes = refl
Holds-has_permission role p engineer_deploys = refl
Holds-has_permission role p engineer_rolls_back = refl
Holds-has_permission role p reviewer_validates = refl

has_permission-Holds : (role : ℕ) (p : Permission) → has_permission role p ≡ true → Holds role p
unfolding has_permission holds role_permissions
has_permission-Holds zero p h = admin_holds p
has_permission-Holds (suc zero) may_promote h = engineer_promotes
has_permission-Holds (suc zero) may_deploy h = engineer_deploys
has_permission-Holds (suc zero) may_rollback h = engineer_rolls_back
has_permission-Holds (suc zero) may_validate_staging h = cc
has_permission-Holds (suc zero) may_write_infra_credential h = cc
has_permission-Holds (suc (suc zero)) p h = cc
has_permission-Holds (suc (suc (suc zero))) may_validate_staging h = reviewer_validates
has_permission-Holds (suc (suc (suc zero))) may_promote h = cc
has_permission-Holds (suc (suc (suc zero))) may_deploy h = cc
has_permission-Holds (suc (suc (suc zero))) may_rollback h = cc
has_permission-Holds (suc (suc (suc zero))) may_write_infra_credential h = cc
has_permission-Holds (suc (suc (suc (suc n)))) p h = ground arith

module _ {T : Type 0} (jwt : Jwt T) (now : ℕ) where
  -- The token decodes to a payload whose subject is this stored user.
  pub record Identifies (token : Option T) (db : Accounts) (u : User) : Type 0 where
    pub raw : T
    pub payload : Payload
    pub subject : ℕ
    pub is_given : token ≡ some raw
    pub decodes : jwt.decode now raw ≡ some payload
    pub has_subject : payload.sub ≡ some subject
    pub is_stored : get_user_by_id subject db.users ≡ some u

  get_current_user-Identifies :
      (token : Option T) (db : Accounts) (u : User)
      → get_current_user jwt now token db ≡ ok u
      → Identifies token db u
  unfolding get_current_user
  get_current_user-Identifies none db u h = cc
  get_current_user-Identifies (some t) db u h = elim (Option-cases (jwt.decode now t)) [
    | inl e ↦ absurd (let h' = rw (e, get_current_user) at h in cc h')
    | inr (payload, e) ↦ elim (Option-cases payload.sub) [
      | inl f ↦ absurd (let h' = rw (e, f, get_current_user) at h in cc h')
      | inr (k, f) ↦ elim (Option-cases (get_user_by_id k db.users)) [
        | inl g ↦ absurd (let h' = rw (e, f, g, get_current_user) at h in cc h')
        | inr (u', g) ↦
            let h' = rw (e, f, g, get_current_user) at h in
            let same : u' ≡ u = ground arith in
            record {
              raw = t;
              payload = payload;
              subject = k;
              is_given = refl;
              decodes = e;
              has_subject = f;
              is_stored = g ∙ ap some same;
            }
      ]
    ]
  ]

  Identifies-get_current_user :
      (token : Option T) (db : Accounts) (u : User)
      → Identifies token db u
      → get_current_user jwt now token db ≡ ok u
  unfolding get_current_user
  Identifies-get_current_user token db u i =
      rw (i.is_given, get_current_user) (rw i.decodes (rw i.has_subject (rw i.is_stored refl)))

  -- An endpoint that requires a permission lets a request through as a user exactly if the token
  -- decodes to a payload whose subject is that user, and the user's stored role holds the
  -- permission. Neither the role nor the type that the token states counts.
  pub require_permission_iff :
      (p : Permission) (token : Option T) (db : Accounts) (u : User)
      → (require_permission jwt now p token db ≡ ok u) ↔ (Identifies token db u × Holds u.role p)
  unfolding require_permission
  require_permission_iff p token db u = (
    λ h. elim (Result-cases (get_current_user jwt now token db)) [
      | inr (e, f) ↦ absurd (let h' = rw (f, require_permission) at h in cc h')
      | inl (u', f) ↦ elim (Bool-cases (has_permission u'.role p)) [
        | inr n ↦ absurd (let h' = rw (f, n, require_permission) at h in cc h')
        | inl y ↦
            let h' = rw (f, y, require_permission) at h in
            let same : u' ≡ u = ground arith in
            subst (λ x. Identifies token db x × Holds x.role p) same
              (get_current_user-Identifies token db u' f, has_permission-Holds u'.role p y)
      ]
    ],
    λ a.
        let found = Identifies-get_current_user token db u a.0 in
        let allowed = Holds-has_permission u.role p a.1 in
        rw (found, require_permission) (rw allowed refl),
  )

  users-revoke :
      (l : Lifetimes) (later family : ℕ) (db : Accounts)
      → (revoke_refresh_family l later family db).users ≡ db.users
  unfolding revoke_refresh_family
  users-revoke l later family db =
      elim (Bool-cases (is_refresh_jti_used (family_marker family) db.revoked)) [
        | inl e ↦ rw e refl
        | inr e ↦ rw e refl
      ]

  -- After its family was revoked, a refresh token that has not expired is refused for a rotation but
  -- is still accepted as the bearer token of its user.
  pub revoke-get_current_user :
      (l : Lifetimes) (later family j k : ℕ) (draw : Draw) (token : T) (payload : Payload)
      (db : Accounts) (u : User)
      → jwt.decode now token ≡ some payload
      → payload.token_type ≡ refresh
      → payload.jti ≡ some j
      → payload.family_id ≡ some family
      → payload.sub ≡ some k
      → get_user_by_id k db.users ≡ some u
      → let db' = revoke_refresh_family l later family db in
        (rotate_refresh_token jwt l now draw token db' ≡ (none, db'))
        × (get_current_user jwt now (some token) db' ≡ ok u)
  revoke-get_current_user l later family j k draw token payload db u d r i f s g =
      let db' = revoke_refresh_family l later family db in
      let dead = revoke_refresh_family_used l later family db in
      let own : family_of payload j ≡ family = rw f refl in
      (
        revoked_family_refused jwt l now draw token j payload db' d i
            (subst (λ x. is_refresh_jti_used (family_marker x) db'.revoked ≡ true) (sym own) dead),
        Identifies-get_current_user (some token) db' u (record {
          raw = token;
          payload = payload;
          subject = k;
          is_given = refl;
          decodes = d;
          has_subject = s;
          is_stored = ap (get_user_by_id k) (users-revoke l later family db) ∙ g;
        }),
      )
