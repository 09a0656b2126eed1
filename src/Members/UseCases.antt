-- ===== src/Members/UseCases.antt =====
-- RemoveMembership and ChangeMemberRole of src/features/shared/auth/application/use-cases. Each is
-- the checks, which read, followed by one statement that writes; `remove_check` and
-- `change_check` are the part before the write. No transaction joins the two.
use lakira_backend.Base.{ℕ, not, Option, none, some, ◌==◌, leb, if◌then◌else◌}
use lakira_backend.Store.{
  Membership, MembershipRole, owner, Action, ◌>>=◌, ◌>>◌, pure, or_throw, throw_if, domain_error,
  forbidden, not_found, validation,
}
use lakira_backend.Members.Table.{
  role_eq, is_owner, change_role, find_member_by_id, count_by_org_and_role, save_membership,
  delete_membership,
}

pub record RemoveInput : Type 0 where
  pub membership_id : ℕ
  pub organization_id : ℕ
  pub actor_role : MembershipRole
  pub actor_user_id : ℕ

pub record ChangeInput : Type 0 where
  pub membership_id : ℕ
  pub organization_id : ℕ
  pub new_role : MembershipRole
  pub actor_role : MembershipRole

-- `if (membership.isOwner()) …`: the last owner stays.
unfoldable pub guard_last_owner : ℕ → Membership → Action (Unit {0})
guard_last_owner org m =
    if is_owner m
    then (do
      owners ← count_by_org_and_role org owner
      throw_if (leb owners 1) (domain_error validation))
    else pure tt

unfoldable pub remove_check : RemoveInput → Action Membership
remove_check input = do
  throw_if (not (role_eq input.actor_role owner)) (domain_error forbidden)
  found ← find_member_by_id input.membership_id
  m ← or_throw found (domain_error not_found)
  throw_if (not (m.organization_id == input.organization_id)) (domain_error not_found)
  throw_if (m.user_id == input.actor_user_id) (domain_error validation)
  guard_last_owner input.organization_id m
  pure m

unfoldable pub remove_membership : RemoveInput → Action (Unit {0})
remove_membership input = do m ← remove_check input; delete_membership m.id

-- `none` where the member has the role already, and nothing is written.
unfoldable pub change_check : ChangeInput → Action (Option Membership)
change_check input = do
  throw_if (not (role_eq input.actor_role owner)) (domain_error forbidden)
  found ← find_member_by_id input.membership_id
  m ← or_throw found (domain_error not_found)
  throw_if (not (m.organization_id == input.organization_id)) (domain_error not_found)
  if role_eq m.role input.new_role
      then pure none
      else (guard_last_owner input.organization_id m >> pure (some m))

abbrev pub write_role : MembershipRole → Option Membership → Action (Unit {0})
write_role role none = pure tt
write_role role (some m) = do save_membership (change_role role m); pure tt

unfoldable pub change_member_role : ChangeInput → Action (Unit {0})
change_member_role input = do target ← change_check input; write_role input.new_role target
