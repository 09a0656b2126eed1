-- ===== src/Members/Tests.antt =====
-- The theorems on members at small inputs.
use lakira_backend.Base.{ℕ, none, [], ◌∷◌, ◌==◌, if◌then◌else◌, ◌<◌, ◌≡◌, refl, arith, IsKeyed}
use lakira_backend.Store.{MembershipRole, ok}
use lakira_backend.Samples.{membership, small_world}
use lakira_backend.Members.Table.{member_key}
use lakira_backend.Members.UseCases.{
  RemoveInput, ChangeInput, remove_check, remove_membership, change_member_role,
}
use lakira_backend.Members.Owners.{members, owner_count, remove_keeps_owner}
use lakira_backend.Members.Roles.{change_keeps_owner}
use lakira_backend.Paging.Window.{read_pages}
use lakira_backend.Members.Pages.{
  find_page_by_organization, find_all_by_organization, read_pages-find_all_by_organization,
}
use lakira_backend.Members.Race.{delete_both, removals_race}

-- Owner 1 removes owner 2, and owner 2 removes owner 1.
abbrev remove_two : RemoveInput
remove_two = record {
  membership_id = 6;
  organization_id = 9;
  actor_role = MembershipRole.owner;
  actor_user_id = 1;
}

abbrev remove_one : RemoveInput
remove_one = record {
  membership_id = 5;
  organization_id = 9;
  actor_role = MembershipRole.owner;
  actor_user_id = 2;
}

abbrev demote_two : ChangeInput
demote_two = record {
  membership_id = 6;
  organization_id = 9;
  new_role = MembershipRole.member;
  actor_role = MembershipRole.owner;
}

small-IsKeyed : IsKeyed member_key (members small_world)
small-IsKeyed = (refl, (refl, tt))

remove_keeps_owner_example : 0 < owner_count 9 (remove_membership remove_two small_world).1
remove_keeps_owner_example = remove_keeps_owner remove_two small_world 9 small-IsKeyed (omega arith)

change_keeps_owner_example : 0 < owner_count 9 (change_member_role demote_two small_world).1
change_keeps_owner_example = change_keeps_owner demote_two small_world 9 small-IsKeyed (omega arith)

removals_race_example :
    (remove_check remove_two small_world ≡ (ok (membership 6 2 MembershipRole.owner), small_world))
    × (remove_check remove_one small_world
        ≡ (ok (membership 5 1 MembershipRole.owner), small_world))
    × (owner_count 9 (
          delete_both
            (membership 6 2 MembershipRole.owner)
            (membership 5 1 MembershipRole.owner)
            small_world)
        ≡ 0)
removals_race_example =
    removals_race remove_two remove_one small_world (membership 6 2 MembershipRole.owner)
      (membership 5 1 MembershipRole.owner) small-IsKeyed
      (record {
        found = refl;
        same_org = refl;
        not_self = omega arith;
        by_owner = refl;
        active_owner = refl;
      })
      (record {
        found = refl;
        same_org = refl;
        not_self = omega arith;
        by_owner = refl;
        active_owner = refl;
      })
      (omega arith) refl refl

-- Two members who joined in one millisecond, the first row later by the microsecond, in pages of one.
abbrev micros_of : ℕ → ℕ
micros_of id = if id == 5 then 7 else 0

apart_by_micros :
    find_all_by_organization micros_of 9 (members small_world)
    ≡ membership 6 2 MembershipRole.owner ∷ membership 5 1 MembershipRole.owner ∷ []
unfolding find_all_by_organization
apart_by_micros = refl

read_pages-find_all_by_organization_example :
    read_pages (λ after. find_page_by_organization 9 1 after (members small_world)) 3 none
    ≡ membership 5 1 MembershipRole.owner ∷ membership 6 2 MembershipRole.owner ∷ []
unfolding find_all_by_organization
read_pages-find_all_by_organization_example =
    (read_pages-find_all_by_organization micros_of 9 1 3 (members small_world) small-IsKeyed
      (omega arith) (omega arith)).0
