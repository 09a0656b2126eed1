-- ===== src/Members/Roles.antt =====
-- Changing a member's role (ChangeMemberRole) and the owners of the organization.
use lakira_backend.Base.{
  ℕ, ◌<◌, ◌≡◌, ap, ◌⊎◌, inl, inr, true, none, some, arith, find_key, replace_key, IsKeyed,
  count_where-replace_key, find_key_eq,
}
use lakira_backend.Store.{Membership, owner, World, ok, Step-cases}
use lakira_backend.Members.Table.{member_key, is_owner, change_role, counts_as}
use lakira_backend.Members.UseCases.{
  ChangeInput, guard_last_owner, change_check, change_member_role,
}
use lakira_backend.Members.Owners.{members, owner_count, with_members}

-- What the checks of a role change establish of the member to change.
pub record MayChange (input : ChangeInput) (w : World) (m : Membership) : Type 0 where
  pub found : find_key member_key input.membership_id (members w) ≡ some m
  pub same_org : m.organization_id ≡ input.organization_id
  pub by_owner : input.actor_role ≡ owner
  pub not_last : is_owner m ≡ true → 1 < owner_count input.organization_id w

change_check_result :
    (input : ChangeInput) (w : World) (m : Membership) (w' : World)
    → change_check input w ≡ (ok (some m), w')
    → (w' ≡ w) × MayChange input w m
unfolding change_check guard_last_owner
change_check_result input w m w' h = (
  ground arith,
  record {
    found = ground arith;
    same_org = ground arith;
    by_owner = ground arith;
    not_last = ground arith;
  },
)

change_check_keeps : (input : ChangeInput) (w : World) → (change_check input w).1 ≡ w
unfolding change_check guard_last_owner
change_check_keeps input w = ground arith

-- A role change is refused or needless and writes nothing, or replaces the role of one row.
pub change_result :
    (input : ChangeInput) (w : World)
    → ((change_member_role input w).1 ≡ w)
      ⊎ ((m : Membership) × MayChange input w m
          × (change_member_role input w ≡ (
            ok tt,
            with_members w (replace_key member_key m.id (change_role input.new_role m) (members w)),
          )))
unfolding change_member_role
change_result input w = elim (Step-cases (change_check input w)) [
  | inr (e, v, failed) ↦ inl (ground (arith, change_check_keeps input w))
  | inl (none, v, needless) ↦ inl (ground (arith, change_check_keeps input w))
  | inl (some m, v, passed) ↦
      let (same, may) = change_check_result input w m v passed in
      let own : m.id ≡ input.membership_id = find_key_eq member_key _ (members w) m may.found in
      let there = rw (← own) at may.found in inr (m, may, ground arith)
]

-- Changing a role never takes an organization's last active owner, whatever the input and the
-- answer; the table has its primary key.
pub change_keeps_owner :
    (input : ChangeInput) (w : World) (org : ℕ)
    → IsKeyed member_key (members w)
    → 0 < owner_count org w
    → 0 < owner_count org (change_member_role input w).1
change_keeps_owner input w org keyed some_owner = elim (change_result input w) [
  | inl same ↦ rw same some_owner
  | inr (m, may, done) ↦
      let own : m.id ≡ input.membership_id = find_key_eq member_key _ (members w) m may.found in
      let there = rw (← own) at may.found in
      rw done (
        ground (
          arith,
          may.same_org,
          may.not_last,
          count_where-replace_key member_key (counts_as org owner) m.id
              (change_role input.new_role m) (members w) m keyed there,
          ap (λ o. owner_count o w) {x = org} {y = input.organization_id},
        ))
]
