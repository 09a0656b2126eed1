-- ===== src/Session/SigningIn.antt =====
-- The changes of the token table that signing in makes.
use lakira_backend.Base.{
  ℕ, ◌≡◌, refl, subst, inl, inr, none, some, arith, select_where, Option-cases, Bool-cases,
}
use lakira_backend.Text.{trim}
use lakira_backend.Store.{AuthUser, World}
use lakira_backend.Members.Table.{is_active_of_user, first_joined}
use lakira_backend.Accounts.Users.{find_email}
use lakira_backend.Accounts.Lockout.{record_failure, reset_failures}
use lakira_backend.Session.RefreshTokens.{Draw}
use lakira_backend.Session.UseCases.{hash_email, issue_refresh_token, login, login_known}
use lakira_backend.Session.Inputs.{SessionPorts, LoginInput, IssueInput}
use lakira_backend.Session.Rotation.{tokens}
use lakira_backend.Session.Steps.{IsFresh, Changes, unchanged, issue-Changes}

reset_failures-tokens : (key : ℕ) (w : World) → tokens (reset_failures key w) ≡ tokens w
unfolding reset_failures
reset_failures-tokens key w = ground arith

record_failure-tokens : (now key : ℕ) (w : World) → tokens (record_failure now key w) ≡ tokens w
unfolding record_failure
record_failure-tokens now key w = ground arith

login_known-Changes :
    (ports : SessionPorts) (draw : Draw) (now : ℕ) (input : LoginInput) (user : AuthUser)
    (w : World)
    → IsFresh draw w
    → Changes (tokens w) (tokens (login_known ports draw now input user w).1)
unfolding login_known
login_known-Changes ports draw now input user w fresh =
    elim (Option-cases (first_joined (select_where (is_active_of_user user.id) w.db.memberships))) [
      | inl homeless ↦ unchanged _ _ (ground arith)
      | inr (m, member) ↦
          let issue : IssueInput = record {
            user_id = user.id;
            family_id = none;
            organization_id = some m.organization_id;
            user_agent = input.user_agent;
            ip = input.ip;
          } in
          subst (Changes (tokens w))
            (ground (
              arith,
              reset_failures-tokens (hash_email ports input.email)
                  (issue_refresh_token ports draw now issue w).1,
            ))
            (issue-Changes ports draw now issue w refl fresh)
    ]

pub login-Changes :
    (ports : SessionPorts) (draw : Draw) (now : ℕ) (input : LoginInput) (w : World)
    → IsFresh draw w
    → Changes (tokens w) (tokens (login ports draw now input w).1)
unfolding login
login-Changes ports draw now input w fresh =
    elim (Option-cases (find_email (ports.to_lower_case (trim input.email)) w.db.users)) [
      | inl unknown ↦
          unchanged _ _ (ground (arith, record_failure-tokens now (hash_email ports input.email) w))
      | inr (user, known) ↦
          elim (Bool-cases (ports.compare_password input.password user.password_hash)) [
            | inl right ↦
                subst (Changes (tokens w)) (ground arith)
                  (login_known-Changes ports draw now input user w fresh)
            | inr wrong ↦
                unchanged _ _
                  (ground (arith, record_failure-tokens now (hash_email ports input.email) w))
          ]
    ]
