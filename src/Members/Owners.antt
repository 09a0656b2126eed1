-- ===== src/Members/Owners.antt =====
-- Removing a member (RemoveMembership) and the owners of the organization.
use lakira_backend.Base.{
  ℕ, ◌+◌, ◌<◌, ◌≡◌, ◌≢◌, refl, ap, subst, ◌⊎◌, inl, inr, Bool, true, none, some, [], ◌∷◌, arith,
  ◌==◌, ==_iff, bit, find_key, delete_key, count_where, IsKeyed, find_key_eq, Bool-cases,
}
use lakira_backend.Store.{Membership, owner, World, ok, err, Failure, Step-cases}
use lakira_backend.Members.Table.{Memberships, member_key, is_owner, counts_as}
use lakira_backend.Members.UseCases.{RemoveInput, guard_last_owner, remove_check, remove_membership}

abbrev pub members : World → Memberships
members w = w.db.memberships

-- The active owners of an organization.
abbrev pub owner_count : ℕ → World → ℕ
owner_count org w = count_where (counts_as org owner) (members w)

pub delete_key_missing :
    (k : ℕ) (rows : Memberships)
    → find_key member_key k rows ≡ none
    → delete_key member_key k rows ≡ rows
delete_key_missing k [] h = refl
delete_key_missing k (m ∷ rows) h = ground (arith, delete_key_missing k rows)

-- Deleting the row of a key takes from a count what the row adds to it.
pub count_where-delete_key :
    (p : Membership → Bool) (k : ℕ) (rows : Memberships) (m : Membership)
    → IsKeyed member_key rows
    → find_key member_key k rows ≡ some m
    → count_where p (delete_key member_key k rows) + bit (p m) ≡ count_where p rows
count_where-delete_key p k [] m keyed h = cc
count_where-delete_key p k (n ∷ rows) m keyed h = elim (Bool-cases (n.id == k)) [
  | inl here ↦
      let gone = subst (λ j. find_key member_key j rows ≡ none) ((==_iff n.id k).0 here) keyed.0 in
      let first : n ≡ m = ground arith in
      rw here (
        omega (
          arith,
          ap (λ l. count_where p l) (delete_key_missing k rows gone),
          ap (λ v. bit (p v)) first,
        ))
  | inr there ↦ rw there (omega (arith, count_where-delete_key p k rows m keyed.1 (ground arith)))
]

-- What the checks of a removal establish; they write nothing.
pub record MayRemove (input : RemoveInput) (w : World) (m : Membership) : Type 0 where
  pub found : find_key member_key input.membership_id (members w) ≡ some m
  pub same_org : m.organization_id ≡ input.organization_id
  pub not_self : m.user_id ≢ input.actor_user_id
  pub by_owner : input.actor_role ≡ owner
  pub not_last : is_owner m ≡ true → 1 < owner_count input.organization_id w

pub remove_check_result :
    (input : RemoveInput) (w : World) (m : Membership) (w' : World)
    → remove_check input w ≡ (ok m, w')
    → (w' ≡ w) × MayRemove input w m
unfolding remove_check guard_last_owner
remove_check_result input w m w' h = (
  ground arith,
  record {
    found = ground arith;
    same_org = ground arith;
    not_self = ground arith;
    by_owner = ground arith;
    not_last = ground arith;
  },
)

remove_check_keeps : (input : RemoveInput) (w : World) → (remove_check input w).1 ≡ w
unfolding remove_check guard_last_owner
remove_check_keeps input w = ground arith

abbrev pub with_members : World → Memberships → World
with_members w rows = record w { db = record w.db { memberships = rows } }

-- A removal either is refused and writes nothing, or deletes one row after its checks held.
pub remove_result :
    (input : RemoveInput) (w : World)
    → ((e : Failure) × (remove_membership input w ≡ (err e, w)))
      ⊎ ((m : Membership) × MayRemove input w m
          × (remove_membership input w
              ≡ (ok tt, with_members w (delete_key member_key m.id (members w)))))
unfolding remove_membership
remove_result input w = elim (Step-cases (remove_check input w)) [
  | inr (e, v, failed) ↦ inl (e, ground (arith, remove_check_keeps input w))
  | inl (m, v, passed) ↦
      let (same, may) = remove_check_result input w m v passed in
      let own : m.id ≡ input.membership_id = find_key_eq member_key _ (members w) m may.found in
      let there = rw (← own) at may.found in inr (m, may, ground arith)
]

-- Removing a member never takes an organization's last active owner, whatever the input and the
-- answer; the table has its primary key.
pub remove_keeps_owner :
    (input : RemoveInput) (w : World) (org : ℕ)
    → IsKeyed member_key (members w)
    → 0 < owner_count org w
    → 0 < owner_count org (remove_membership input w).1
remove_keeps_owner input w org keyed some_owner = elim (remove_result input w) [
  | inl (e, refused) ↦ rw refused some_owner
  | inr (m, may, done) ↦
      let own : m.id ≡ input.membership_id = find_key_eq member_key _ (members w) m may.found in
      let there = rw (← own) at may.found in
      rw done (
        ground (
          arith,
          may.same_org,
          may.not_last,
          count_where-delete_key (counts_as org owner) m.id (members w) m keyed there,
          ap (λ o. owner_count o w) {x = org} {y = input.organization_id},
        ))
]
