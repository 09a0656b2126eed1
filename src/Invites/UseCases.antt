-- ===== src/Invites/UseCases.antt =====
-- `AcceptInvite` and `InviteUserToOrganization` of src/features/shared/auth/application/use-cases.
-- `now` is the instant that the call reads from the clock.
use lakira_backend.Base.{
  ℕ, ◌+◌, ◌*◌, Bool, not, ◌&&◌, ◌||◌, Option, none, some, ◌∷◌, if◌then◌else◌, is_some,
}
use lakira_backend.Text.{Text, trim, text_eq}
use lakira_backend.Store.{
  MembershipRole, owner, InviteRole, OrganizationInvite, EmailMessage, JobMessage, World, Action,
  ok, err, ◌>>=◌, ◌>>◌, pure, throw, or_throw, throw_if, run_in_transaction, domain_error,
  validation, forbidden, not_found, conflict, active,
}
use lakira_backend.Mail.{PublishAnswer, SendAnswer, send_mail}
use lakira_backend.Accounts.Users.{find_user_by_id}
use lakira_backend.Members.Table.{find_by_user_and_org, create_membership, role_eq}
use lakira_backend.Messaging.Idempotency.{run_once}
use lakira_backend.Invites.Table.{
  is_expired, is_accepted, find_invite_by_hash, find_invite_by_id, find_pending,
  delete_expired_pending, save_invite, CreateInvite, replace_token_hash, delete_invite_by_id,
  mark_invite_accepted, find_organization,
}

-- SHA-256, lower-casing by the string library and by the database, the queue and the mail server.
pub record InvitePorts : Type 0 where
  pub sha256 : ℕ → ℕ
  pub to_lower_case : Text → Text
  pub sql_lower : Text → Text
  pub queue_is_enabled : Bool
  pub publish_answer : PublishAnswer
  pub send_answer : EmailMessage → SendAnswer
  pub ttl_days : ℕ
  pub routing_key : Text
  pub queue_name : Text

pub record AcceptInput : Type 0 where
  pub raw_token : ℕ
  pub user_id : ℕ

pub record InviteInput : Type 0 where
  pub organization_id : ℕ
  pub email : Text
  pub role : InviteRole
  pub inviter_role : MembershipRole

-- What a call draws: the new row's id, the token that it is saved with, the message's id, and the
-- token that the job mints.
pub record InviteDraw : Type 0 where
  pub invite_id : ℕ
  pub raw_token : ℕ
  pub message_id : Text
  pub job_token : ℕ

abbrev pub membership_role : InviteRole → MembershipRole
membership_role InviteRole.admin = MembershipRole.admin
membership_role InviteRole.member = MembershipRole.member

module _ (ports : InvitePorts) where
  -- The membership that an accepted invite is for; `membership_id` is its row's id if it is new.
  unfoldable pub join : ℕ → ℕ → ℕ → OrganizationInvite → Action (Unit {0})
  join membership_id now user_id invite = do
    existing ← find_by_user_and_org user_id invite.organization_id
    if is_some existing then mark_invite_accepted invite.id now else (do
      create_membership membership_id now (record {
        user_id = user_id;
        organization_id = invite.organization_id;
        role = membership_role invite.role;
        status = some active;
      })
      mark_invite_accepted invite.id now)

  unfoldable pub accept_invite : ℕ → ℕ → AcceptInput → Action (Unit {0})
  accept_invite membership_id now input = do
    found ← find_invite_by_hash (ports.sha256 input.raw_token)
    invite ← or_throw found (domain_error validation)
    throw_if (is_accepted invite) (domain_error validation)
    throw_if (is_expired now invite) (domain_error validation)
    account ← find_user_by_id input.user_id
    user ← or_throw account (domain_error not_found)
    throw_if (not (text_eq (ports.to_lower_case user.email) (ports.to_lower_case invite.email)))
        (domain_error validation)
    join membership_id now user.id invite

  -- Replaces the invite's token with one minted here, then sends its link.
  abbrev pub send_for : ℕ → OrganizationInvite → Action (Unit {0})
  send_for raw invite = do
    replace_token_hash invite.id (ports.sha256 raw)
    send_mail ports.send_answer (record { to = invite.email; link_token = raw })

  abbrev pub send_if_owed : ℕ → ℕ → Option OrganizationInvite → Action (Unit {0})
  send_if_owed raw now none = pure tt
  send_if_owed raw now (some invite) =
      if is_accepted invite || is_expired now invite then pure tt else (do
        found ← find_organization invite.organization_id
        if is_some found then send_for raw invite else pure tt)

  -- For the queued job, and for the fallback.
  unfoldable pub execute_in_transaction : ℕ → ℕ → ℕ → Action (Unit {0})
  execute_in_transaction raw now invite_id = do
    found ← find_invite_by_id invite_id
    send_if_owed raw now found

  abbrev pub invite_data : InviteDraw → ℕ → InviteInput → Text → CreateInvite
  invite_data draw now input email = record {
    id = draw.invite_id;
    organization_id = input.organization_id;
    email = email;
    role = input.role;
    token_hash = ports.sha256 draw.raw_token;
    expires_at = now + ports.ttl_days * 24 * 60 * 60 * 1000;
  }

  -- With the queue off the invite and the send share one transaction.
  unfoldable pub invite_and_send : InviteDraw → ℕ → CreateInvite → Action (Unit {0})
  invite_and_send draw now dto = run_in_transaction (do
    save_invite ports.sql_lower now dto
    send_mail ports.send_answer (record { to = dto.email; link_token = draw.raw_token }))

  abbrev pub invite_job : InviteDraw → JobMessage
  invite_job draw = record {
    routing_key = ports.routing_key;
    subject_id = draw.invite_id;
    message_id = draw.message_id;
  }

  -- `queue.publish`: the world afterwards, whatever the call answers.
  abbrev pub published_to : InviteDraw → World → World
  published_to draw w =
      if ports.publish_answer.reaches
      then record w { published = invite_job draw ∷ w.published }
      else w

  -- The job in the request, after a publish that failed; if it fails too, the invite is deleted.
  unfoldable pub fall_back : InviteDraw → ℕ → Action (Unit {0})
  fall_back draw now w =
      let (r, w') =
        run_once (some draw.message_id) ports.queue_name
          (execute_in_transaction draw.job_token now draw.invite_id) w in
      elim r [
        | ok outcome ↦ (ok tt, w')
        | err e ↦ (delete_invite_by_id draw.invite_id >> throw e) w'
      ]

  unfoldable pub invite_and_publish : InviteDraw → ℕ → CreateInvite → Action (Unit {0})
  invite_and_publish draw now dto = do
    save_invite ports.sql_lower now dto
    λ w.
        if ports.publish_answer.confirms
        then (ok tt, published_to draw w)
        else fall_back draw now (published_to draw w)

  -- `execute` once the caller's role and the organization have been checked; `email` is normalized.
  unfoldable pub invite_email : InviteDraw → ℕ → InviteInput → Text → Action (Unit {0})
  invite_email draw now input email = do
    delete_expired_pending ports.sql_lower (ports.to_lower_case email) input.organization_id now
    pending ← find_pending email input.organization_id now
    throw_if (is_some pending) (domain_error conflict)
    if ports.queue_is_enabled
        then invite_and_publish draw now (invite_data draw now input email)
        else invite_and_send draw now (invite_data draw now input email)

  unfoldable pub invite_user : InviteDraw → ℕ → InviteInput → Action (Unit {0})
  invite_user draw now input = do
    throw_if
        (not (role_eq input.inviter_role owner)
          && not (role_eq input.inviter_role MembershipRole.admin))
        (domain_error forbidden)
    org ← find_organization input.organization_id
    or_throw org (domain_error not_found)
    invite_email draw now input (ports.to_lower_case (trim input.email))
