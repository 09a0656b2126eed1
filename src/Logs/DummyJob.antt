-- ===== src/Logs/DummyJob.antt =====
-- The dummy logs: the request (GenerateDummyMetricLogs) and the handler of its job
-- (GenerateDummyMetricLogsHandler), with the checks of a job's body (job-body.ts). Parsing JSON is
-- the runtime's: a body is given as what the parser makes of each field. The random draws are a
-- list, one for each log.
use lakira_backend.Base.{
  ℕ, zero, suc, Bool, true, false, ◌||◌, Option, some, List, [], ◌∷◌, ltb, if◌then◌else◌,
}
use lakira_backend.Text.{Text}
use lakira_backend.Store.{
  LogType, Failure, ok, err, Action, ◌>>=◌, ◌>>◌, pure, or_throw, throw_if, domain_error,
  unauthorized, forbidden, not_found, terminal_message,
}
use lakira_backend.Messaging.Idempotency.{IdempotencyOutcome, run_once}
use lakira_backend.Metrics.Table.{ensure_metric_ownership}
use lakira_backend.Metrics.UseCases.{invalidate}
use lakira_backend.Logs.Table.{CreateLog, create_log}

abbrev pub max_dummy_metric_logs : ℕ
max_dummy_metric_logs = 1000

-- A body that is a JSON object, field by field: an id that is a UUID, and a count that is a whole
-- number that is not below 0, or `none`.
pub record JobBody : Type 0 where
  pub job_id : Option ℕ
  pub user_id : Option ℕ
  pub organization_id : Option ℕ
  pub metric_id : Option ℕ
  pub count : Option ℕ

pub record JobPayload : Type 0 where
  pub job_id : ℕ
  pub user_id : ℕ
  pub organization_id : ℕ
  pub metric_id : ℕ
  pub count : ℕ

abbrev pub count_is_wrong : ℕ → Bool
count_is_wrong count = ltb count 1 || ltb max_dummy_metric_logs count

-- `parseJob`; content that is no JSON object is `none`.
unfoldable pub parse_job : Option JobBody → Action JobPayload
parse_job content = do
  body ← or_throw content terminal_message
  job_id ← or_throw body.job_id terminal_message
  user_id ← or_throw body.user_id terminal_message
  organization_id ← or_throw body.organization_id terminal_message
  metric_id ← or_throw body.metric_id terminal_message
  count ← or_throw body.count terminal_message
  throw_if (count_is_wrong count) terminal_message
  pure (record {
    job_id = job_id;
    user_id = user_id;
    organization_id = organization_id;
    metric_id = metric_id;
    count = count;
  })

-- What one round of the loop draws.
pub record LogDraw : Type 0 where
  pub id : ℕ
  pub now : ℕ
  pub log_value : ℕ
  pub logged_at : ℕ
  pub type : LogType

abbrev pub dummy_log : ℕ → ℕ → LogDraw → CreateLog
dummy_log organization_id metric_id draw = record {
  metric_id = metric_id;
  organization_id = organization_id;
  log_value = draw.log_value;
  type = draw.type;
  logged_at = draw.logged_at;
}

-- The loop, over the draws of its rounds.
unfoldable pub create_dummy_logs : ℕ → ℕ → List LogDraw → Action (Unit {0})
create_dummy_logs organization_id metric_id [] = pure tt
create_dummy_logs organization_id metric_id (draw ∷ draws) =
    create_log draw.now draw.id (dummy_log organization_id metric_id draw)
    >> create_dummy_logs organization_id metric_id draws

-- The draws of `count` rounds.
abbrev pub rounds : ℕ → (ℕ → LogDraw) → List LogDraw
rounds zero draw = []
rounds (suc n) draw = draw n ∷ rounds n draw

abbrev pub is_terminal_access : Failure → Bool
is_terminal_access (domain_error unauthorized) = true
is_terminal_access (domain_error forbidden) = true
is_terminal_access (domain_error not_found) = true
is_terminal_access _ = false

-- The `catch` around the check of access.
unfoldable pub ensure_access : Option ℕ → ℕ → ℕ → Action (Unit {0})
ensure_access user_id organization_id metric_id w =
    let (r, v) = ensure_metric_ownership user_id organization_id metric_id w in
    elim r [
      | ok u ↦ (ok u, v)
      | err e ↦ ((if is_terminal_access e then err terminal_message else err e), v)
    ]

module _ (fails : Bool) where
  -- `handle`
  unfoldable pub handle_dummy_job :
      (message_id : Option Text) (queue : Text)
      → Option JobBody
      → (ℕ → LogDraw)
      → Action IdempotencyOutcome
  handle_dummy_job message_id queue content draw = do
    job ← parse_job content
    ensure_access (some job.user_id) job.organization_id job.metric_id
    outcome ←
        run_once message_id queue
          (create_dummy_logs job.organization_id job.metric_id (rounds job.count draw))
    invalidate fails
    pure outcome

  -- The request where the queue is disabled.
  unfoldable pub generate_in_process :
      (user_id : Option ℕ) (organization_id metric_id count : ℕ) → (ℕ → LogDraw) → Action (Unit {0})
  generate_in_process user_id organization_id metric_id count draw = do
    ensure_metric_ownership user_id organization_id metric_id
    create_dummy_logs organization_id metric_id (rounds count draw)
    invalidate fails
