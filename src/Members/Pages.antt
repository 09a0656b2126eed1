-- ===== src/Members/Pages.antt =====
-- The paged listings of MembershipRepositorySequelize. `joined_at` is in milliseconds, to which
-- the pages truncate the column.
use lakira_backend.Base.{
  ℕ, ◌+◌, ◌*◌, ◌≤◌, ◌<◌, ◌≡◌, sym, subst, ap, ◌∙◌, Bool, ◌==◌, Option, none, length, count_where,
  select_where, IsKeyed,
}
use lakira_backend.Store.{Membership}
use lakira_backend.Members.Table.{Memberships, member_key, is_active_of_user}
use lakira_backend.Paging.Window.{asc, Position, Page, page_of, order_by, read_pages}
use lakira_backend.Paging.Following.{
  follow_all, length-order_by, count_where-order_by, select_where-IsKeyed,
}

abbrev pub joined_at_ms : Membership → ℕ
joined_at_ms m = m.joined_at

-- `findPage`
abbrev pub find_page : (Membership → Bool) → ℕ → Option Position → Memberships → Page Membership
find_page where_ limit after rows =
    page_of joined_at_ms member_key asc limit after (select_where where_ rows)

unfoldable pub find_active_page_by_user : ℕ → ℕ → Option Position → Memberships → Page Membership
find_active_page_by_user user_id = find_page (is_active_of_user user_id)

abbrev pub is_in_organization : ℕ → Membership → Bool
is_in_organization organization_id m = m.organization_id == organization_id

unfoldable pub find_page_by_organization : ℕ → ℕ → Option Position → Memberships → Page Membership
find_page_by_organization organization_id = find_page (is_in_organization organization_id)

-- `findAllByUser` and `findAllByOrganization`, which order by the column itself. `micros id` is
-- the part of a row's column, in microseconds, that the truncation drops.
module _ (micros : ℕ → ℕ) where
  abbrev pub joined_at_us : Membership → ℕ
  joined_at_us m = m.joined_at * 1000 + micros m.id

  unfoldable pub find_all_by_user : ℕ → Memberships → Memberships
  find_all_by_user user_id rows =
      order_by joined_at_us member_key asc (select_where (λ m. m.user_id == user_id) rows)

  unfoldable pub find_all_by_organization : ℕ → Memberships → Memberships
  find_all_by_organization organization_id rows =
      order_by joined_at_us member_key asc (select_where (is_in_organization organization_id) rows)

  -- Who follows the cursors of an organization's members from the first page on, with pages of at
  -- least one row, reads the organization's rows in the order of the millisecond of `joined_at` and
  -- then of the id. What is read has as many rows of every kind as `findAllByOrganization` answers,
  -- whatever microseconds the column holds: each member once, though two of one millisecond may
  -- stand in another order. The table has its primary key and does not change between the pages.
  pub read_pages-find_all_by_organization :
      (organization_id limit fuel : ℕ) (rows : Memberships)
      → IsKeyed member_key rows
      → 1 ≤ limit
      → length (find_all_by_organization organization_id rows) < fuel
      → (read_pages (λ after. find_page_by_organization organization_id limit after rows) fuel none
          ≡ order_by joined_at_ms member_key asc
              (select_where (is_in_organization organization_id) rows))
        × ((p : Membership → Bool)
            → count_where p (
                read_pages
                  (λ after. find_page_by_organization organization_id limit after rows)
                  fuel
                  none)
              ≡ count_where p (find_all_by_organization organization_id rows))
  unfolding find_page_by_organization find_all_by_organization
  read_pages-find_all_by_organization organization_id limit fuel rows keyed l f =
      let own = select_where (is_in_organization organization_id) rows in
      let enough =
        subst (λ n. n < fuel)
          (length-order_by joined_at_us member_key asc own
            ∙ sym (length-order_by joined_at_ms member_key asc own))
          f in
      let all =
        follow_all joined_at_ms member_key asc own
          (select_where-IsKeyed member_key (is_in_organization organization_id) rows keyed) fuel
          limit l enough in
      (
        all,
        λ p.
            ap (count_where p) all
            ∙ count_where-order_by joined_at_ms member_key asc p own
            ∙ sym (count_where-order_by joined_at_us member_key asc p own),
      )
