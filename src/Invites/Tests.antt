-- ===== src/Invites/Tests.antt =====
-- The theorems on invitations at small inputs.
use lakira_backend.Base.{◌+◌, ◌≡◌, refl, true, false, none, [], ◌∷◌, find_where, delete_where}
use lakira_backend.Store.{
  OrganizationInvite, Organization, InviteRole, MembershipRole, World, ok, err, send_failed,
}
use lakira_backend.Text.{text_eq}
use lakira_backend.Samples.{small_db, small_world}
use lakira_backend.Invites.Table.{
  find_invite_hash, has_lapsed, is_pending, save_invite, pending_clash, invite_hash_taken,
}
use lakira_backend.Invites.UseCases.{
  InvitePorts, InviteInput, InviteDraw, AcceptInput, accept_invite, join, invite_user, invite_email,
  invite_and_publish, fall_back, execute_in_transaction,
}
use lakira_backend.Messaging.Idempotency.{run_once, was_processed}
use lakira_backend.Invites.Accepting.{Accepts, accept_joins}
use lakira_backend.Invites.Sending.{failed_invite_leaves_none}

abbrev ports : InvitePorts
ports = record {
  sha256 = λ n. 1000 + n;
  to_lower_case = λ t. t;
  sql_lower = λ t. t;
  queue_is_enabled = false;
  publish_answer = record { reaches = false; confirms = false };
  send_answer = λ m. record { delivers = false; returns = false };
  ttl_days = 7;
  routing_key = [];
  queue_name = [];
}

-- Ann, invited to organization 7 with the token 4.
abbrev ann_invite : OrganizationInvite
ann_invite = record {
  id = 60;
  organization_id = 7;
  email = 97 ∷ [];
  role = InviteRole.member;
  token_hash = 1004;
  expires_at = 500;
  accepted_at = none;
  created_at = 0;
}

abbrev invited_world : World
invited_world = record small_world { db = record small_db { invites = ann_invite ∷ [] } }

abbrev ann_accepts : AcceptInput
ann_accepts = record { raw_token = 4; user_id = 1 }

abbrev joined_world : World
joined_world = (accept_invite ports 61 100 ann_accepts invited_world).1

accepted_run : accept_invite ports 61 100 ann_accepts invited_world ≡ (ok tt, joined_world)
unfolding accept_invite join find_invite_hash text_eq
accepted_run = refl

accept_joins_example : Accepts ports 100 ann_accepts invited_world joined_world
accept_joins_example = accept_joins ports 61 100 ann_accepts invited_world joined_world accepted_run

abbrev office : Organization
office = record { id = 9; name = []; slug = []; created_at = 0; updated_at = 0; deleted_at = none }

abbrev office_world : World
office_world = record small_world { db = record small_db { organizations = office ∷ [] } }

abbrev invite_bob : InviteInput
invite_bob = record {
  organization_id = 9;
  email = 98 ∷ [];
  role = InviteRole.member;
  inviter_role = MembershipRole.owner;
}

abbrev draw : InviteDraw
draw = record { invite_id = 63; raw_token = 5; message_id = 50 ∷ []; job_token = 6 }

-- The queue is on, the broker does not answer, and the fallback's send fails.
abbrev queued_ports : InvitePorts
queued_ports = record ports { queue_is_enabled = true }

unsent_run :
    invite_user queued_ports draw 100 invite_bob office_world ≡ (err send_failed, office_world)
unfolding invite_user invite_email invite_and_publish fall_back save_invite pending_clash
    invite_hash_taken execute_in_transaction run_once was_processed
unsent_run = refl

failed_invite_leaves_none_example :
    ([] ≡ delete_where (has_lapsed (λ t. t) (98 ∷ []) 9 100) [])
    × (find_where (is_pending (98 ∷ []) 9 100) [] ≡ none)
    × (true ≡ true → false ≡ false)
failed_invite_leaves_none_example =
    failed_invite_leaves_none queued_ports draw 100 invite_bob office_world office_world refl
      unsent_run
