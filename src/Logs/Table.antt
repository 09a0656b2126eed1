-- ===== src/Logs/Table.antt =====
-- The entity MetricLog (src/features/public/metric-log/domain/entities) and its table
-- (infrastructure/persistence/repositories/MetricLogRepoSequelize.ts). A metric and a timestamp
-- are together unique (migration 20250109160356). A figure that may be no number, or infinite,
-- is an `Option`.
use lakira_backend.Base.{
  ℕ, Bool, false, not, ◌&&◌, ◌||◌, Option, none, some, List, [], ◌∷◌, ◌++◌, ◌==◌, ltb, any,
  find_where, update_where, delete_where, if◌then◌else◌,
}
use lakira_backend.Store.{
  Metric, MetricLog, LogType, Result, ok, err, Db, Action, ◌>>=◌, ◌>>◌, pure, gets, or_throw,
  throw_if, modify_db, app_error, plain_error, unique_violation,
}
use lakira_backend.Metrics.Texts.{metric_log_value_rule}
use lakira_backend.Metrics.Table.{is_owned}

abbrev pub log_key : MetricLog → ℕ
log_key l = l.id

-- `setLogValue`; the lowest value is 0.
unfoldable pub set_log_value : ℕ → Option ℕ → MetricLog → Result MetricLog
set_log_value now none l = err plain_error
set_log_value now (some next) l =
    if ltb next metric_log_value_rule.low || ltb metric_log_value_rule.high next
    then err plain_error
    else ok (record l { log_value = next; updated_at = now })

abbrev pub set_type : ℕ → LogType → MetricLog → MetricLog
set_type now next l = record l { type = next; updated_at = now }

-- `setLoggedAt` of a valid date
abbrev pub set_logged_at : ℕ → ℕ → MetricLog → MetricLog
set_logged_at now date l = record l { logged_at = date; updated_at = now }

abbrev pub set_logs : (List MetricLog → List MetricLog) → Db → Db
set_logs f d = record d { tracking = record d.tracking { logs = f d.tracking.logs } }

-- `excludeLogId`
abbrev pub is_excluded : Option ℕ → MetricLog → Bool
is_excluded none l = false
is_excluded (some id) l = l.id == id

abbrev pub is_at : ℕ → ℕ → ℕ → Option ℕ → MetricLog → Bool
is_at organization_id metric_id logged_at exclude l =
    l.organization_id == organization_id
    && l.metric_id == metric_id
    && l.logged_at == logged_at
    && not (is_excluded exclude l)

abbrev pub exists_at_timestamp : ℕ → ℕ → ℕ → Option ℕ → Action Bool
exists_at_timestamp organization_id metric_id logged_at exclude =
    gets (λ d. any (is_at organization_id metric_id logged_at exclude) d.tracking.logs)

pub record CreateLog : Type 0 where
  pub metric_id : ℕ
  pub organization_id : ℕ
  pub log_value : ℕ
  pub type : LogType
  pub logged_at : ℕ

abbrev pub created_log : ℕ → ℕ → CreateLog → MetricLog
created_log now id dto = record {
  id = id;
  metric_id = dto.metric_id;
  organization_id = dto.organization_id;
  log_value = dto.log_value;
  type = dto.type;
  logged_at = dto.logged_at;
  created_at = now;
  updated_at = now;
}

-- The unique constraint.
abbrev pub collides : ℕ → ℕ → MetricLog → Bool
collides metric_id logged_at l = l.metric_id == metric_id && l.logged_at == logged_at

unfoldable pub create_log : ℕ → ℕ → CreateLog → Action MetricLog
create_log now id dto = do
  rows ← gets (λ d. d.tracking.logs)
  throw_if (any (collides dto.metric_id dto.logged_at) rows) unique_violation
  modify_db (set_logs (λ ls. ls ++ created_log now id dto ∷ []))
  pure (created_log now id dto)

-- The inner join with the user's metric, which is not deleted.
abbrev pub is_log_of : ℕ → ℕ → ℕ → List Metric → MetricLog → Bool
is_log_of user_id organization_id id metrics l =
    l.id == id
    && l.organization_id == organization_id
    && any (is_owned user_id organization_id l.metric_id) metrics

unfoldable pub find_log_by_id : ℕ → ℕ → ℕ → Action (Option MetricLog)
find_log_by_id user_id organization_id id =
    gets (λ d. find_where (is_log_of user_id organization_id id d.tracking.metrics) d.tracking.logs)

abbrev pub is_row : ℕ → ℕ → MetricLog → Bool
is_row organization_id id l = l.id == id && l.organization_id == organization_id

abbrev pub saved_log : ℕ → MetricLog → MetricLog → MetricLog
saved_log now l row = record row {
  log_value = l.log_value;
  type = l.type;
  logged_at = l.logged_at;
  updated_at = now;
}

-- Another row with the metric and the timestamp.
abbrev pub collides_other : MetricLog → MetricLog → Bool
collides_other l other = collides l.metric_id l.logged_at other && not (other.id == l.id)

unfoldable pub save_log : ℕ → ℕ → MetricLog → Action MetricLog
save_log now organization_id l = do
  row ← gets (λ d. find_where (is_row organization_id l.id) d.tracking.logs)
  found ← or_throw row (app_error 404)
  rows ← gets (λ d. d.tracking.logs)
  throw_if (any (collides_other (saved_log now l found)) rows) unique_violation
  modify_db (set_logs (update_where (is_row organization_id l.id) (saved_log now l)))
  pure (saved_log now l found)

abbrev pub delete_log : ℕ → MetricLog → Action (Unit {0})
delete_log organization_id l = modify_db (set_logs (delete_where (is_row organization_id l.id)))
