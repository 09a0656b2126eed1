-- ===== src/Invites/Accepting.antt =====
-- What accepting an invite does.
use lakira_backend.Base.{
  ℕ, ◌<◌, ◌≡◌, refl, inl, inr, true, false, ◌&&◌, some, [], ◌∷◌, ◌++◌, arith, is_some, find_where,
  update_where, find_where-update_where, find_where-holds, Option-cases, ◌==◌,
}
use lakira_backend.Store.{
  Membership, active, OrganizationInvite, World, ok, err, domain_error, validation,
}
use lakira_backend.Accounts.Users.{find_user, is_kept}
use lakira_backend.Members.Table.{Memberships, is_active_in}
use lakira_backend.Invites.Table.{Invites, find_invite_hash, has_id, accepted, is_accepted}
use lakira_backend.Invites.UseCases.{InvitePorts, AcceptInput, accept_invite, join, membership_role}

-- What holds of an invite that was accepted, by whom, and of the world that it leaves.
pub record Accepts (ports : InvitePorts) (now : ℕ) (input : AcceptInput) (w w' : World)
    : Type 0 where
  pub invite : OrganizationInvite
  pub presented : find_invite_hash (ports.sha256 input.raw_token) w.db.invites ≡ some invite
  pub unused : is_accepted invite ≡ false
  pub in_time : now < invite.expires_at
  pub joined :
      is_some (find_where (is_active_in input.user_id invite.organization_id) w'.db.memberships)
      ≡ true
  pub stored : w'.db.invites ≡ update_where (has_id invite.id) (accepted now) w.db.invites

active_in-append :
    (user org : ℕ) (m : Membership) (rows : Memberships)
    → is_active_in user org m ≡ true
    → is_some (find_where (is_active_in user org) (rows ++ m ∷ [])) ≡ true
active_in-append user org m [] h = ground arith
active_in-append user org m (n ∷ rows) h = ground (arith, active_in-append user org m rows)

new_member : ℕ → ℕ → ℕ → OrganizationInvite → Membership
new_member membership_id now user_id i = record {
  id = membership_id;
  user_id = user_id;
  organization_id = i.organization_id;
  role = membership_role i.role;
  status = active;
  joined_at = now;
}

join_result :
    (ports : InvitePorts) (membership_id now : ℕ) (user_id : ℕ) (i : OrganizationInvite)
    (w w' : World)
    → join ports membership_id now user_id i w ≡ (ok tt, w')
    → (is_some (find_where (is_active_in user_id i.organization_id) w'.db.memberships) ≡ true)
      × (w'.db.invites ≡ update_where (has_id i.id) (accepted now) w.db.invites)
unfolding join new_member
join_result ports membership_id now user_id i w w' h =
    elim (Option-cases (find_where (is_active_in user_id i.organization_id) w.db.memberships)) [
      | inr (m, there) ↦ (ground arith, ground arith)
      | inl missing ↦ (
        ground (
          arith,
          active_in-append user_id i.organization_id (new_member membership_id now user_id i)
              w.db.memberships,
        ),
        ground arith,
      )
    ]

-- Whoever accepts an invite successfully presented the token of a stored invite that was neither
-- accepted nor expired, is an active member of its organization afterwards, and the rows with that
-- invite's id, and no others, are marked as accepted.
pub accept_joins :
    (ports : InvitePorts) (membership_id now : ℕ) (input : AcceptInput) (w w' : World)
    → accept_invite ports membership_id now input w ≡ (ok tt, w')
    → Accepts ports now input w w'
unfolding accept_invite
accept_joins ports membership_id now input w w' h =
    elim (Option-cases (find_invite_hash (ports.sha256 input.raw_token) w.db.invites)) [
      | inl missing ↦ ground arith
      | inr (i, found) ↦ elim (Option-cases (find_user input.user_id w.db.users)) [
        | inl unknown ↦ ground arith
        | inr (user, known) ↦
            let own : user.id ≡ input.user_id = ground (
              arith,
              find_where-holds (λ u. u.id == input.user_id && is_kept u) w.db.users user known,
            ) in
            let done : join ports membership_id now input.user_id i w ≡ (ok tt, w') =
              ground arith in
            let (member, marked) = join_result ports membership_id now input.user_id i w w' done in
            record {
              invite = i;
              presented = found;
              unused = ground arith;
              in_time = ground arith;
              joined = member;
              stored = marked;
            }
      ]
    ]

accepted_is_refused :
    (ports : InvitePorts) (membership_id now : ℕ) (input : AcceptInput) (w : World)
    (i : OrganizationInvite)
    → find_invite_hash (ports.sha256 input.raw_token) w.db.invites ≡ some i
    → is_accepted i ≡ true
    → accept_invite ports membership_id now input w ≡ (err (domain_error validation), w)
unfolding accept_invite
accepted_is_refused ports membership_id now input w i found used = ground arith

find_invite_hash-accepted :
    (h now : ℕ) (i : OrganizationInvite) (rows : Invites)
    → find_invite_hash h rows ≡ some i
    → find_invite_hash h (update_where (has_id i.id) (accepted now) rows) ≡ some (accepted now i)
unfolding find_invite_hash
find_invite_hash-accepted h now i rows found =
    find_where-update_where (λ j. j.token_hash == h) (has_id i.id) (accepted now) rows i (λ j. refl)
      found (ground arith)

-- An invite is accepted once: after it was accepted, every later call with the same token, by any
-- user and at any time, is refused with 400 and changes nothing.
accept_once :
    (ports : InvitePorts) (membership_id now : ℕ) (input : AcceptInput) (w w' : World)
    → accept_invite ports membership_id now input w ≡ (ok tt, w')
    → (other later : ℕ) (again : AcceptInput) → again.raw_token ≡ input.raw_token
    → accept_invite ports other later again w' ≡ (err (domain_error validation), w')
accept_once ports membership_id now input w w' h other later again same =
    let a = accept_joins ports membership_id now input w w' h in
    let spent =
      find_invite_hash-accepted (ports.sha256 input.raw_token) now a.invite w.db.invites
        a.presented in
    accepted_is_refused ports other later again w' (accepted now a.invite)
      (rw (a.stored, same) spent) refl
