-- ===== src/Logs/UseCases.antt =====
-- CreateMetricLog, UpdateMetricLog and DeleteMetricLog
-- (src/features/public/metric-log/application/use-cases). A timestamp that is given is valid or
-- not; whether the invalidation of the caches throws is `fails`.
use lakira_backend.Base.{ℕ, Bool, Option, none, some}
use lakira_backend.Store.{
  MetricLog, LogType, manual, ok, err, Action, ◌>>=◌, ◌>>◌, pure, throw, or_throw, throw_if,
  domain_error, validation, not_found, conflict, plain_error,
}
use lakira_backend.Settings.Entity.{Patch, unset, set}
use lakira_backend.Metrics.Table.{ensure_metric_ownership}
use lakira_backend.Metrics.UseCases.{invalidate}
use lakira_backend.Logs.Table.{
  set_log_value, set_type, set_logged_at, exists_at_timestamp, create_log, find_log_by_id, save_log,
  delete_log,
}

-- A date as it arrives: a Date that may be invalid, or a text that may not be one.
pub data Timestamp : Type 0 where
  date : Option ℕ → Timestamp
  iso : Option ℕ → Timestamp

-- An invalid Date fails the check, and `parseIsoToDate` throws a plain error of its own.
abbrev pub read_timestamp : Timestamp → Action ℕ
read_timestamp (date none) = throw (domain_error validation)
read_timestamp (date (some t)) = pure t
read_timestamp (iso none) = throw plain_error
read_timestamp (iso (some t)) = pure t

abbrev pub timestamp_or_now : ℕ → Option Timestamp → Action ℕ
timestamp_or_now now none = pure now
timestamp_or_now now (some t) = read_timestamp t

pub record CreateLogInput : Type 0 where
  pub user_id : Option ℕ
  pub organization_id : ℕ
  pub metric_id : Option ℕ
  pub log_value : ℕ
  pub type : Option LogType
  pub logged_at : Option Timestamp

abbrev pub type_or_manual : Option LogType → LogType
type_or_manual none = manual
type_or_manual (some t) = t

pub record LogUpdates : Type 0 where
  pub log_value : Patch (Option ℕ)
  pub type : Patch LogType
  pub logged_at : Patch Timestamp

abbrev pub update_value : ℕ → Patch (Option ℕ) → MetricLog → Action MetricLog
update_value now unset l = pure l
update_value now (set v) l = elim (set_log_value now v l) [
  | ok changed ↦ pure changed
  | err _ ↦ throw (domain_error validation)
]

abbrev pub update_type : ℕ → Patch LogType → MetricLog → MetricLog
update_type now unset l = l
update_type now (set t) l = set_type now t l

abbrev pub update_timestamp : ℕ → ℕ → Patch Timestamp → MetricLog → Action MetricLog
update_timestamp now organization_id unset l = pure l
update_timestamp now organization_id (set given) l = do
  timestamp ← read_timestamp given
  exists ← exists_at_timestamp organization_id l.metric_id timestamp (some l.id)
  throw_if exists (domain_error conflict)
  pure (set_logged_at now timestamp l)

module _ (fails : Bool) where
  unfoldable pub create_metric_log : (now id : ℕ) → CreateLogInput → Action MetricLog
  create_metric_log now id input = do
    metric_id ← or_throw input.metric_id (domain_error validation)
    ensure_metric_ownership input.user_id input.organization_id metric_id
    timestamp ← timestamp_or_now now input.logged_at
    exists ← exists_at_timestamp input.organization_id metric_id timestamp none
    throw_if exists (domain_error conflict)
    log ← create_log now id (record {
      metric_id = metric_id;
      organization_id = input.organization_id;
      log_value = input.log_value;
      type = type_or_manual input.type;
      logged_at = timestamp;
    })
    invalidate fails
    pure log

  unfoldable pub update_metric_log :
      (now user_id organization_id id : ℕ) → LogUpdates → Action MetricLog
  update_metric_log now user_id organization_id id updates = do
    found ← find_log_by_id user_id organization_id id
    log ← or_throw found (domain_error not_found)
    valued ← update_value now updates.log_value log
    dated ←
        update_timestamp now organization_id updates.logged_at (update_type now updates.type valued)
    saved ← save_log now organization_id dated
    invalidate fails
    pure saved

  unfoldable pub delete_metric_log : (user_id organization_id id : ℕ) → Action MetricLog
  delete_metric_log user_id organization_id id = do
    found ← find_log_by_id user_id organization_id id
    log ← or_throw found (domain_error not_found)
    delete_log organization_id log
    invalidate fails
    pure log
