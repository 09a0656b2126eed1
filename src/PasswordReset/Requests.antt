-- ===== src/PasswordReset/Requests.antt =====
-- `RequestPasswordReset` of src/features/shared/auth/application/use-cases.
use lakira_backend.Base.{ℕ, ◌+◌, ◌*◌, Bool, Option, none, some, ◌∷◌, if◌then◌else◌}
use lakira_backend.Text.{Text, trim}
use lakira_backend.Store.{AuthUser, World, EmailMessage, JobMessage, Action, ok, ◌>>=◌, ◌>>◌, pure}
use lakira_backend.Accounts.Users.{find_user_by_id, find_user_by_email}
use lakira_backend.Messaging.Idempotency.{run_once}
use lakira_backend.Mail.{PublishAnswer, SendAnswer, send_mail, swallow}
use lakira_backend.PasswordReset.Tokens.{invalidate_all_for_user, create_reset_token}

-- What the request finds outside: whether the queue is on, what a publish comes to, what a
-- send comes to, SHA-256, and the lower-casing of the string library.
pub record ResetPorts : Type 0 where
  pub queue_is_enabled : Bool
  pub publish_answer : PublishAnswer
  pub send_answer : EmailMessage → SendAnswer
  pub sha256 : ℕ → ℕ
  pub to_lower_case : Text → Text
  pub ttl_minutes : ℕ
  pub routing_key : Text
  pub queue_name : Text

-- What the call draws: the row's id, the raw token and the message id.
pub record ResetDraw : Type 0 where
  pub token_id : ℕ
  pub raw_token : ℕ
  pub message_id : Text

module _ (ports : ResetPorts) where
  -- Invalidates the user's earlier tokens and mints one.
  unfoldable pub issue : ResetDraw → ℕ → AuthUser → Action EmailMessage
  issue draw now user = do
    invalidate_all_for_user user.id now
    create_reset_token now (record {
      id = draw.token_id;
      user_id = user.id;
      token_hash = ports.sha256 draw.raw_token;
      expires_at = now + ports.ttl_minutes * 60 * 1000;
    })
    pure (record { to = user.email; link_token = draw.raw_token })

  abbrev pub send_to : ResetDraw → ℕ → Option AuthUser → Action (Unit {0})
  send_to draw now none = pure tt
  send_to draw now (some user) = do mail ← issue draw now user; send_mail ports.send_answer mail

  -- For the queued job, and for the fallback.
  unfoldable pub execute_in_transaction : ResetDraw → ℕ → ℕ → Action (Unit {0})
  execute_in_transaction draw now user_id = do
    found ← find_user_by_id user_id
    send_to draw now found

  -- A failed send is logged; a failed issue is thrown.
  unfoldable pub send_in_request : ResetDraw → ℕ → AuthUser → Action (Unit {0})
  send_in_request draw now user = do
    mail ← issue draw now user
    swallow (send_mail ports.send_answer mail)

  unfoldable pub send_job_in_request : ResetDraw → ℕ → ℕ → Action (Unit {0})
  send_job_in_request draw now user_id =
      swallow
        (run_once (some draw.message_id) ports.queue_name (execute_in_transaction draw now user_id))

  abbrev pub job_of : ResetDraw → ℕ → JobMessage
  job_of draw user_id = record {
    routing_key = ports.routing_key;
    subject_id = user_id;
    message_id = draw.message_id;
  }

  -- `queue.publish`: the world afterwards, whatever the call answers.
  abbrev pub published_to : ResetDraw → ℕ → World → World
  published_to draw user_id w =
      if ports.publish_answer.reaches
      then record w { published = job_of draw user_id ∷ w.published }
      else w

  unfoldable pub queue_email : ResetDraw → ℕ → ℕ → Action (Unit {0})
  queue_email draw now user_id w =
      if ports.publish_answer.confirms
      then (ok tt, published_to draw user_id w)
      else send_job_in_request draw now user_id (published_to draw user_id w)

  abbrev pub request_for : ResetDraw → ℕ → Option AuthUser → Action (Unit {0})
  request_for draw now none = pure tt
  request_for draw now (some user) =
      if ports.queue_is_enabled then queue_email draw now user.id else send_in_request draw now user

  unfoldable pub request_password_reset : ResetDraw → ℕ → Text → Action (Unit {0})
  request_password_reset draw now email = do
    found ← find_user_by_email (ports.to_lower_case (trim email))
    request_for draw now found
