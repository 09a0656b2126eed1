-- ===== src/Session/Switching.antt =====
-- The changes of the token table that switching the organization makes.
use lakira_backend.Base.{
  ℕ, ◌≡◌, refl, subst, inl, inr, true, none, some, List, [], ◌∷◌, arith, find_where, select_where,
  Option-cases, Bool-cases,
}
use lakira_backend.Store.{AuthUser, Membership, World, ok}
use lakira_backend.Members.Table.{is_active, is_active_in}
use lakira_backend.Accounts.Users.{find_user}
use lakira_backend.Session.RefreshTokens.{Draw, Tokens, revoke_rows, is_active_of}
use lakira_backend.Session.UseCases.{issue_refresh_token, switch_organization}
use lakira_backend.Session.Inputs.{
  SessionPorts, SwitchInput, IssueInput, family_ids, revoke_families,
}
use lakira_backend.Session.Rotation.{tokens, with_tokens}
use lakira_backend.Session.Changes.{revokes, in_family, find_key-revoke_rows}
use lakira_backend.Session.Steps.{
  IsFresh, Changes, none_yet, and_then, unchanged, issue-Changes, Changes-trans,
}

revoke_all : List ℕ → ℕ → Tokens → Tokens
revoke_all [] now rows = rows
revoke_all (f ∷ fs) now rows = revoke_all fs now (revoke_rows f now rows)

revoke_families_result :
    (fs : List ℕ) (now : ℕ) (w : World)
    → revoke_families fs now w ≡ (ok tt, with_tokens w (revoke_all fs now (tokens w)))
unfolding revoke_all
revoke_families_result [] now w = refl
revoke_families_result (f ∷ fs) now w =
    revoke_families_result fs now (with_tokens w (revoke_rows f now (tokens w)))

revoke_all-Changes :
    (rows : Tokens) (fs : List ℕ) (now : ℕ) (mid : Tokens)
    → Changes rows mid
    → Changes rows (revoke_all fs now mid)
unfolding revoke_all
revoke_all-Changes rows [] now mid c = c
revoke_all-Changes rows (f ∷ fs) now mid c =
    revoke_all-Changes rows fs now (revoke_rows f now mid) (and_then c (revokes f now refl))

find_where-revoke_rows :
    (g family now : ℕ) (rows : Tokens)
    → find_where (in_family g) rows ≡ none
    → find_where (in_family g) (revoke_rows family now rows) ≡ none
unfolding revoke_rows
find_where-revoke_rows g family now [] h = refl
find_where-revoke_rows g family now (t ∷ rows) h =
    ground (arith, find_where-revoke_rows g family now rows)

revoke_all-IsFresh :
    (draw : Draw) (fs : List ℕ) (now : ℕ) (w : World)
    → IsFresh draw w
    → IsFresh draw (with_tokens w (revoke_all fs now (tokens w)))
unfolding revoke_all
revoke_all-IsFresh draw [] now w fresh = fresh
revoke_all-IsFresh draw (f ∷ fs) now w fresh =
    revoke_all-IsFresh draw fs now (with_tokens w (revoke_rows f now (tokens w))) (
      find_key-revoke_rows draw.token_id f now (tokens w) fresh.0,
      find_where-revoke_rows draw.new_family_id f now (tokens w) fresh.1,
    )

-- The token that a switch issues.
abbrev switch_input : SwitchInput → AuthUser → IssueInput
switch_input input user = record {
  user_id = user.id;
  family_id = none;
  organization_id = some input.organization_id;
  user_agent = input.user_agent;
  ip = input.ip;
}

switch_allowed-Changes :
    (ports : SessionPorts) (draw : Draw) (now : ℕ) (input : SwitchInput) (w : World)
    (m : Membership) (user : AuthUser)
    → IsFresh draw w
    → find_where (is_active_in input.user_id input.organization_id) w.db.memberships ≡ some m
    → is_active m ≡ true
    → find_user input.user_id w.db.users ≡ some user
    → Changes (tokens w) (tokens (switch_organization ports draw now input w).1)
unfolding switch_organization
switch_allowed-Changes ports draw now input w m user fresh member live known =
    let fs = family_ids (select_where (is_active_of input.user_id now) (tokens w)) in
    let cleared = with_tokens w (revoke_all fs now (tokens w)) in
    let end = (issue_refresh_token ports draw now (switch_input input user) cleared).1 in
    let issued =
      issue-Changes ports draw now (switch_input input user) cleared refl
        (revoke_all-IsFresh draw fs now w fresh) in
    let revoked = revoke_all-Changes (tokens w) fs now (tokens w) none_yet in
    subst (Changes (tokens w)) (ground (arith, revoke_families_result fs now w))
      (Changes-trans revoked issued)

pub switch-Changes :
    (ports : SessionPorts) (draw : Draw) (now : ℕ) (input : SwitchInput) (w : World)
    → IsFresh draw w
    → Changes (tokens w) (tokens (switch_organization ports draw now input w).1)
switch-Changes ports draw now input w fresh =
    elim (Option-cases
      (find_where (is_active_in input.user_id input.organization_id) w.db.memberships)) [
        | inl stranger ↦ unchanged _ _ (unfold switch_organization in ground arith)
        | inr (m, member) ↦ elim (Bool-cases (is_active m)) [
          | inr idle ↦ unchanged _ _ (unfold switch_organization in ground arith)
          | inl live ↦ elim (Option-cases (find_user input.user_id w.db.users)) [
            | inl unknown ↦ unchanged _ _ (unfold switch_organization in ground arith)
            | inr (user, known) ↦
                switch_allowed-Changes ports draw now input w m user fresh member live known
          ]
        ]
      ]
