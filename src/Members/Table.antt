-- ===== src/Members/Table.antt =====
-- The entity Membership (src/features/shared/auth/domain/entities/Membership.ts) and its table
-- (infrastructure/persistence/MembershipRepositorySequelize.ts).
use lakira_backend.Base.{
  ℕ, Bool, true, false, ◌&&◌, ◌||◌, Option, none, some, List, [], ◌∷◌, ◌++◌, ◌==◌, ltb, any,
  if◌then◌else◌, find_where, select_where, count_where, find_key, replace_key, delete_key,
  get_or_else,
}
use lakira_backend.Store.{
  Membership, MembershipRole, MembershipStatus, owner, active, invited, removed, Db, Action, ◌>>=◌,
  ◌>>◌, pure, gets, or_throw, throw_if, modify_db, plain_error, unique_violation,
}

abbrev pub role_eq : MembershipRole → MembershipRole → Bool
role_eq MembershipRole.owner MembershipRole.owner = true
role_eq MembershipRole.admin MembershipRole.admin = true
role_eq MembershipRole.member MembershipRole.member = true
role_eq _ _ = false

abbrev pub status_is_active : MembershipStatus → Bool
status_is_active active = true
status_is_active invited = false
status_is_active removed = false

abbrev pub change_role : MembershipRole → Membership → Membership
change_role role m = record m { role = role }

abbrev pub is_active : Membership → Bool
is_active m = status_is_active m.status

abbrev pub is_owner : Membership → Bool
is_owner m = role_eq m.role owner

abbrev pub is_admin : Membership → Bool
is_admin m = role_eq m.role MembershipRole.admin || role_eq m.role owner

abbrev pub Memberships : Type 0
Memberships = List Membership

abbrev pub member_key : Membership → ℕ
member_key m = m.id

abbrev pub set_memberships : (Memberships → Memberships) → Db → Db
set_memberships f d = record d { memberships = f d.memberships }

abbrev pub find_member_by_id : ℕ → Action (Option Membership)
find_member_by_id id = gets (λ d. find_key member_key id d.memberships)

abbrev pub is_active_in : ℕ → ℕ → Membership → Bool
is_active_in user_id org m =
    m.user_id == user_id && (m.organization_id == org && status_is_active m.status)

abbrev pub find_by_user_and_org : ℕ → ℕ → Action (Option Membership)
find_by_user_and_org user_id org = gets (λ d. find_where (is_active_in user_id org) d.memberships)

-- `ORDER BY joined_at, id`
abbrev pub joined_before : Membership → Membership → Bool
joined_before a b = ltb a.joined_at b.joined_at || (a.joined_at == b.joined_at && ltb a.id b.id)

-- The first row in that order.
unfoldable pub first_joined : Memberships → Option Membership
first_joined [] = none
first_joined (m ∷ ms) = elim (first_joined ms) [
  | none ↦ some m
  | some n ↦ some (if joined_before n m then n else m)
]

abbrev pub is_active_of_user : ℕ → Membership → Bool
is_active_of_user user_id m = m.user_id == user_id && status_is_active m.status

abbrev pub find_default_by_user : ℕ → Action (Option Membership)
find_default_by_user user_id =
    gets (λ d. first_joined (select_where (is_active_of_user user_id) d.memberships))

abbrev pub counts_as : ℕ → MembershipRole → Membership → Bool
counts_as org role m =
    m.organization_id == org && (role_eq m.role role && status_is_active m.status)

abbrev pub count_by_org_and_role : ℕ → MembershipRole → Action ℕ
count_by_org_and_role org role = gets (λ d. count_where (counts_as org role) d.memberships)

pub record CreateMembership : Type 0 where
  pub user_id : ℕ
  pub organization_id : ℕ
  pub role : MembershipRole
  pub status : Option MembershipStatus

-- The unique constraint on (user_id, organization_id).
abbrev pub pair_taken : ℕ → ℕ → Memberships → Bool
pair_taken user_id org = any (λ m. m.user_id == user_id && m.organization_id == org)

abbrev pub create_membership : ℕ → ℕ → CreateMembership → Action Membership
create_membership id now dto = do
  rows ← gets (λ d. d.memberships)
  throw_if (pair_taken dto.user_id dto.organization_id rows) unique_violation
  let created : Membership = record {
    id = id;
    user_id = dto.user_id;
    organization_id = dto.organization_id;
    role = dto.role;
    status = get_or_else dto.status active;
    joined_at = now;
  }
  modify_db (set_memberships (λ ms. ms ++ created ∷ []))
  pure created

-- Only the role is written.
abbrev pub save_membership : Membership → Action Membership
save_membership m = do
  found ← gets (λ d. find_key member_key m.id d.memberships)
  row ← or_throw found plain_error
  modify_db (set_memberships (replace_key member_key m.id (change_role m.role row)))
  pure (change_role m.role row)

abbrev pub delete_membership : ℕ → Action (Unit {0})
delete_membership id = do
  found ← gets (λ d. find_key member_key id d.memberships)
  or_throw found plain_error
  modify_db (set_memberships (delete_key member_key id))
