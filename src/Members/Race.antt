-- ===== src/Members/Race.antt =====
-- Two removals whose checks both run before either deletes.
use lakira_backend.Base.{
  ℕ, ◌≡◌, ◌≢◌, refl, true, some, arith, [], ◌∷◌, find_key, delete_key, IsKeyed, find_key_eq, none,
}
use lakira_backend.Store.{Membership, owner, World, ok, ◌>>◌}
use lakira_backend.Members.Table.{Memberships, member_key, counts_as, delete_membership}
use lakira_backend.Members.UseCases.{RemoveInput, guard_last_owner, remove_check}
use lakira_backend.Members.Owners.{members, owner_count, with_members, count_where-delete_key}

-- The writes of two removals, one after the other.
pub delete_both : Membership → Membership → World → World
delete_both a b w = ((delete_membership a.id >> delete_membership b.id) w).1

find_key-delete_key :
    (j k : ℕ) (rows : Memberships)
    → j ≢ k
    → find_key member_key j (delete_key member_key k rows) ≡ find_key member_key j rows
find_key-delete_key j k [] h = refl
find_key-delete_key j k (m ∷ rows) h = ground (arith, find_key-delete_key j k rows h)

absent-delete_key :
    (j k : ℕ) (rows : Memberships)
    → find_key member_key j rows ≡ none
    → find_key member_key j (delete_key member_key k rows) ≡ none
absent-delete_key j k [] h = refl
absent-delete_key j k (m ∷ rows) h = ground (arith, absent-delete_key j k rows)

pub delete_key-IsKeyed :
    (k : ℕ) (rows : Memberships)
    → IsKeyed member_key rows
    → IsKeyed member_key (delete_key member_key k rows)
delete_key-IsKeyed k [] h = tt
delete_key-IsKeyed k (m ∷ rows) h =
    ground (arith, delete_key-IsKeyed k rows h.1, absent-delete_key m.id k rows h.0)

delete_both_result :
    (a b : Membership) (w : World)
    → a.id ≢ b.id
    → find_key member_key a.id (members w) ≡ some a
    → find_key member_key b.id (members w) ≡ some b
    → delete_both a b w
      ≡ with_members w (delete_key member_key b.id (delete_key member_key a.id (members w)))
unfolding delete_both
delete_both_result a b w apart fa fb = ground (arith, find_key-delete_key b.id a.id (members w))

-- A request of an owner to remove another member of the organization, who is an active owner too.
pub record RemovesOwner (input : RemoveInput) (w : World) (m : Membership) : Type 0 where
  pub found : find_key member_key input.membership_id (members w) ≡ some m
  pub same_org : m.organization_id ≡ input.organization_id
  pub not_self : m.user_id ≢ input.actor_user_id
  pub by_owner : input.actor_role ≡ owner
  pub active_owner : counts_as input.organization_id owner m ≡ true

passes :
    (input : RemoveInput) (w : World) (m : Membership)
    → RemovesOwner input w m
    → owner_count input.organization_id w ≡ 2
    → remove_check input w ≡ (ok m, w)
unfolding remove_check guard_last_owner
passes input w m r two = ground (arith, r.found, r.same_org, r.not_self, r.by_owner, r.active_owner)

-- The last-owner check does not hold across concurrent requests. Where an organization has exactly
-- two active owners and each of two requests of owners is to remove one of them, the checks of both
-- pass in the same world, and the deletions that follow them leave the organization with no active
-- owner. The table has its primary key.
pub removals_race :
    (first second : RemoveInput) (w : World) (a b : Membership)
    → IsKeyed member_key (members w)
    → RemovesOwner first w a
    → RemovesOwner second w b
    → a.id ≢ b.id
    → first.organization_id ≡ second.organization_id
    → owner_count first.organization_id w ≡ 2
    → (remove_check first w ≡ (ok a, w))
      × (remove_check second w ≡ (ok b, w))
      × (owner_count first.organization_id (delete_both a b w) ≡ 0)
removals_race first second w a b keyed ra rb apart same two =
    let key_a = find_key_eq member_key _ (members w) a ra.found in
    let key_b = find_key_eq member_key _ (members w) b rb.found in
    let there_a = rw (← key_a) at ra.found in
    let there_b = rw (← key_b) at rb.found in
    let p = counts_as first.organization_id owner in
    let own_b = rw (← same) at rb.active_owner in
    let left = delete_key member_key a.id (members w) in
    let still : find_key member_key b.id left ≡ some b =
      ground (arith, find_key-delete_key b.id a.id (members w)) in
    (
      passes first w a ra two,
      passes second w b rb (rw (← same) two),
      rw (delete_both_result a b w apart there_a there_b) (
          ground (
            arith,
            ra.active_owner,
            own_b,
            count_where-delete_key p a.id (members w) a keyed there_a,
            count_where-delete_key p b.id left b (delete_key-IsKeyed a.id (members w) keyed) still,
          )),
    )
