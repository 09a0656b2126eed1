-- ===== src/Verification/UseCases.antt =====
-- `RequestEmailVerification` and `VerifyEmail` of src/features/shared/auth/application/use-cases.
-- `now` is the instant that the call reads from the clock.
use lakira_backend.Base.{ℕ, ◌+◌, ◌*◌, not, Option, none, some, if◌then◌else◌, is_some}
use lakira_backend.Store.{
  AuthUser, EmailMessage, Action, ◌>>=◌, ◌>>◌, pure, or_throw, throw_if, domain_error, validation,
}
use lakira_backend.Mail.{SendAnswer, send_mail, swallow}
use lakira_backend.Accounts.Users.{find_user_by_id, save_user, set_email_verified_at}
use lakira_backend.Verification.Tokens.{
  is_usable, find_by_verification_hash, save_verification_token, revoke_all_for_user,
  mark_verification_used,
}

-- SHA-256, the mail server and the lifetime of a token.
pub record VerificationPorts : Type 0 where
  pub sha256 : ℕ → ℕ
  pub send_answer : EmailMessage → SendAnswer
  pub ttl_seconds : ℕ

-- What a request draws: the new row's id and the raw token.
pub record VerificationDraw : Type 0 where
  pub token_id : ℕ
  pub raw_token : ℕ

module _ (ports : VerificationPorts) where
  -- Revokes the user's earlier tokens and mints one.
  abbrev pub mint : VerificationDraw → ℕ → AuthUser → Action (Option EmailMessage)
  mint draw now user = do
    revoke_all_for_user user.id now
    save_verification_token now (record {
      id = draw.token_id;
      user_id = user.id;
      token_hash = ports.sha256 draw.raw_token;
      expires_at = now + ports.ttl_seconds * 1000;
    })
    pure (some (record { to = user.email; link_token = draw.raw_token }))

  abbrev pub mint_if_owed : VerificationDraw → ℕ → Option AuthUser → Action (Option EmailMessage)
  mint_if_owed draw now none = pure none
  mint_if_owed draw now (some user) =
      if is_some user.email_verified_at then pure none else mint draw now user

  -- `none` where no email is owed.
  unfoldable pub issue : VerificationDraw → ℕ → ℕ → Action (Option EmailMessage)
  issue draw now user_id = do found ← find_user_by_id user_id; mint_if_owed draw now found

  abbrev pub send_owed : Option EmailMessage → Action (Unit {0})
  send_owed none = pure tt
  send_owed (some mail) = send_mail ports.send_answer mail

  -- In process: a failed send is logged.
  unfoldable pub request_email_verification : VerificationDraw → ℕ → ℕ → Action (Unit {0})
  request_email_verification draw now user_id = do
    owed ← issue draw now user_id
    swallow (send_owed owed)

  -- For the queued job.
  unfoldable pub execute_in_transaction : VerificationDraw → ℕ → ℕ → Action (Unit {0})
  execute_in_transaction draw now user_id = do owed ← issue draw now user_id; send_owed owed

  unfoldable pub verify_email : ℕ → ℕ → Action (Unit {0})
  verify_email now raw = do
    found ← find_by_verification_hash (ports.sha256 raw)
    token ← or_throw found (domain_error validation)
    throw_if (not (is_usable now token)) (domain_error validation)
    account ← find_user_by_id token.user_id
    user ← or_throw account (domain_error validation)
    save_user now (set_email_verified_at now now user)
    mark_verification_used token.id now
