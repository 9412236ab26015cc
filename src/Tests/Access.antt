-- ===== src/Tests/Access.antt =====
-- A request with a bearer token, and a list in pages.
use defnex_mlops.Base.{List, ℕ, ◌∷◌, [], ◌≡◌, ◌↔◌, ok, none, some, refl, length, ◌≤◌, ◌<◌, suc}
use defnex_mlops.Sessions.{rotate_refresh_token, revoke_refresh_family}
use defnex_mlops.Access.{
  require_permission, get_current_user, may_rollback, pages_from, page_items, PaginationParams,
}
use defnex_mlops.Access.Bearer.{require_permission_iff, revoke-get_current_user, Identifies, Holds}
use defnex_mlops.Access.Pages.{first_pages, first_pages_complete}
use defnex_mlops.Tests.Accounts.{plain, alice, accounts, presented, lifetimes, draw}

require_permission_iff_example :
    (require_permission plain 10 may_rollback (some presented) accounts ≡ ok alice)
    ↔ (Identifies plain 10 (some presented) accounts alice × Holds 1 may_rollback)
require_permission_iff_example =
    require_permission_iff plain 10 may_rollback (some presented) accounts alice

revoke-get_current_user_example :
    let db' = revoke_refresh_family lifetimes 5 50 accounts in
    (rotate_refresh_token plain lifetimes 10 (draw 2) presented db' ≡ (none, db'))
    × (get_current_user plain 10 (some presented) db' ≡ ok alice)
revoke-get_current_user_example =
    revoke-get_current_user plain 10 lifetimes 5 50 3 4 (draw 2) presented presented accounts alice
      refl refl refl refl refl refl

abbrev numbers : List ℕ
numbers = 7 ∷ 8 ∷ 9 ∷ []

first_pages_complete_example :
    (first_pages (pages_from 3 2) 2 numbers ≡ numbers)
    × ((pg : PaginationParams) → length (page_items pg numbers) ≤ pg.size)
    × ((k : ℕ)
        → k < pages_from 3 2
        → 0 < length (page_items (record { page = suc k; size = 2 }) numbers))
first_pages_complete_example = first_pages_complete 1 numbers
