-- ===== src/Session/UseCases.antt =====
-- The use cases IssueRefreshToken, RotateRefreshToken, RevokeRefreshTokenFamily, SwitchOrganization
-- and LoginUser of src/features/shared/auth/application/use-cases. `now` is the instant that the
-- call reads from the clock.
use lakira_backend.Base.{ℕ, not, Option, none, some, if◌then◌else◌}
use lakira_backend.Text.{Text, trim}
use lakira_backend.Store.{
  RefreshToken, AuthUser, Action, ok, ◌>>=◌, ◌>>◌, pure, throw, or_throw, throw_if,
  run_in_transaction, domain_error, unauthorized, forbidden, plain_error,
}
use lakira_backend.Session.RefreshTokens.{
  Draw, issue, is_revoked, is_expired, mark_revoked, replace_with, save, find_by_token_hash,
  revoke_family, find_active_by_user,
}
use lakira_backend.Members.Table.{find_by_user_and_org, find_default_by_user, is_active}
use lakira_backend.Accounts.Users.{find_user_by_id, find_user_by_email}
use lakira_backend.Accounts.Lockout.{record_failure, reset_failures}
use lakira_backend.Session.Inputs.{
  SessionPorts, IssueInput, Issued, SessionTokens, RotateInput, SwitchInput, LoginInput,
  RotateOutcome, revoke_and_reject, rotated, revoke_families, family_ids, payload_of, rotate_input,
}

-- The organization that the new access token is for.
unfoldable pub rotate_organization : RefreshToken → Action ℕ
rotate_organization existing = elim existing.organization_id [
  | some org ↦ do
    found ← find_by_user_and_org existing.user_id org
    membership ← or_throw found (domain_error unauthorized)
    throw_if (not (is_active membership)) (domain_error unauthorized)
    pure org
  | none ↦ do
    found ← find_default_by_user existing.user_id
    membership ← or_throw found (domain_error unauthorized)
    pure membership.organization_id
]

module _ (ports : SessionPorts) where
  -- `hashEmail`
  abbrev pub hash_email : Text → ℕ
  hash_email email = ports.digest (ports.to_lower_case (trim email))

  -- The token that `IssueRefreshToken.execute` and `executeInTransaction` save.
  abbrev pub issued_token : Draw → ℕ → IssueInput → RefreshToken
  issued_token draw now input =
      issue draw now input.user_id (ports.hash_token draw.raw_token) (record {
        family_id = input.family_id;
        organization_id = input.organization_id;
        ttl_days = some ports.ttl_days;
        user_agent = input.user_agent;
        ip = input.ip;
      })

  unfoldable pub issue_refresh_token : Draw → ℕ → IssueInput → Action Issued
  issue_refresh_token draw now input = do
    let token = issued_token draw now input
    save token
    pure (record { raw_token = draw.raw_token; refresh_token = token })

  -- The transaction's body from `existing.markRevoked()` on.
  unfoldable pub replace_token :
      Draw → ℕ → RotateInput → RefreshToken → AuthUser → ℕ → Action RotateOutcome
  replace_token draw now input existing user org = do
    issued ← issue_refresh_token draw now (rotate_input input existing org)
    replaced ←
        or_throw (replace_with issued.refresh_token.id (mark_revoked now existing)) plain_error
    save replaced
    pure (
        rotated (record {
          access_token = ports.sign (payload_of user org);
          raw_refresh_token = issued.raw_token;
        }))

  unfoldable pub rotate_live : Draw → ℕ → RotateInput → RefreshToken → Action RotateOutcome
  rotate_live draw now input existing = do
    found ← find_user_by_id existing.user_id
    user ← or_throw found (domain_error unauthorized)
    org ← rotate_organization existing
    replace_token draw now input existing user org

  unfoldable pub rotate_transaction : Draw → ℕ → RotateInput → Action RotateOutcome
  rotate_transaction draw now input = do
    found ← find_by_token_hash (ports.hash_token input.raw_token)
    existing ← or_throw found (domain_error unauthorized)
    if is_revoked existing
        then pure (revoke_and_reject existing.family_id)
        else if is_expired now existing
        then pure (revoke_and_reject existing.family_id)
        else rotate_live draw now input existing

  abbrev pub settle_rotation : ℕ → RotateOutcome → Action SessionTokens
  settle_rotation now (revoke_and_reject family) = do
    revoke_family family now
    throw (domain_error unauthorized)
  settle_rotation now (rotated tokens) = pure tokens

  unfoldable pub rotate : Draw → ℕ → RotateInput → Action SessionTokens
  rotate draw now input = do
    outcome ← run_in_transaction (rotate_transaction draw now input)
    settle_rotation now outcome

  -- `RevokeRefreshTokenFamily.execute`, which signs a session out.
  unfoldable pub revoke_refresh_token_family : ℕ → ℕ → Action (Unit {0})
  revoke_refresh_token_family now raw = do
    found ← find_by_token_hash (ports.hash_token raw)
    existing ← or_throw found (domain_error unauthorized)
    revoke_family existing.family_id now

  unfoldable pub switch_organization : Draw → ℕ → SwitchInput → Action SessionTokens
  switch_organization draw now input = do
    found ← find_by_user_and_org input.user_id input.organization_id
    membership ← or_throw found (domain_error forbidden)
    throw_if (not (is_active membership)) (domain_error forbidden)
    account ← find_user_by_id input.user_id
    user ← or_throw account (domain_error unauthorized)
    active_tokens ← find_active_by_user input.user_id now
    revoke_families (family_ids active_tokens) now
    issued ← issue_refresh_token draw now (record {
      user_id = user.id;
      family_id = none;
      organization_id = some input.organization_id;
      user_agent = input.user_agent;
      ip = input.ip;
    })
    pure (record {
      access_token = ports.sign (payload_of user input.organization_id);
      raw_refresh_token = issued.raw_token;
    })

  -- `LoginUser.refuse`
  abbrev pub refuse : ℕ → Text → Action SessionTokens
  refuse now email w = throw (domain_error unauthorized) (record_failure now (hash_email email) w)

  -- `LoginUser.execute` from the password's check on.
  unfoldable pub login_known : Draw → ℕ → LoginInput → AuthUser → Action SessionTokens
  login_known draw now input user = do
    found ← find_default_by_user user.id
    membership ← or_throw found (domain_error forbidden)
    issued ← issue_refresh_token draw now (record {
      user_id = user.id;
      family_id = none;
      organization_id = some membership.organization_id;
      user_agent = input.user_agent;
      ip = input.ip;
    })
    (λ w. (ok tt, reset_failures (hash_email input.email) w))
    pure (record {
      access_token = ports.sign (payload_of user membership.organization_id);
      raw_refresh_token = issued.raw_token;
    })

  abbrev pub login_checked : Draw → ℕ → LoginInput → Option AuthUser → Action SessionTokens
  login_checked draw now input none = refuse now input.email
  login_checked draw now input (some user) =
      if ports.compare_password input.password user.password_hash
      then login_known draw now input user
      else refuse now input.email

  unfoldable pub login : Draw → ℕ → LoginInput → Action SessionTokens
  login draw now input = do
    found ← find_user_by_email (ports.to_lower_case (trim input.email))
    login_checked draw now input found
