-- ===== src/Logs/Listing.antt =====
-- `listLogs` of MetricLogQueryRepoSequelize. A cursor is what its text decodes to, and `q` what
-- `Number` makes of a query that is not blank, with NaN passed over.
use lakira_backend.Base.{
  ℕ, min, max, Bool, true, ◌&&◌, Option, none, some, List, ◌==◌, if◌then◌else◌, any, select_where,
  count_where,
}
use lakira_backend.Store.{Metric, MetricLog}
use lakira_backend.Metrics.Table.{is_owned}
use lakira_backend.Paging.Window.{Dir, Position, Page, page_of}
use lakira_backend.Logs.Table.{log_key}

pub data LogSortField : Type 0 where
  created_at updated_at log_value logged_at : LogSortField

pub record LogQuery : Type 0 where
  pub user_id : ℕ
  pub organization_id : ℕ
  pub limit : ℕ
  pub field : LogSortField
  pub dir : Dir
  pub q : Option ℕ
  pub filter_metric_id : Option ℕ
  pub filter_log_value : Option ℕ
  pub include_total : Bool

pub record LogList : Type 0 where
  pub page : Page MetricLog
  pub limit : ℕ
  pub total_count : Option ℕ

-- `clampLimit`
abbrev pub clamp_log_limit : ℕ → ℕ
clamp_log_limit limit = min (max (if limit == 0 then 20 else limit) 1) 100

abbrev pub equals_if : Option ℕ → ℕ → Bool
equals_if none v = true
equals_if (some w) v = v == w

-- A filter by the value 0 is falsy, and passed over.
abbrev pub equals_if_truthy : Option ℕ → ℕ → Bool
equals_if_truthy none v = true
equals_if_truthy (some w) v = if w == 0 then true else v == w

-- `buildWhere` and `includeForOwnership`
abbrev pub selects_log : List Metric → LogQuery → MetricLog → Bool
selects_log metrics query l =
    equals_if query.filter_metric_id l.metric_id
    && equals_if_truthy query.filter_log_value l.log_value
    && equals_if query.q l.log_value
    && any (is_owned query.user_id query.organization_id l.metric_id) metrics

abbrev pub log_sort_value : LogSortField → MetricLog → ℕ
log_sort_value LogSortField.created_at l = l.created_at
log_sort_value LogSortField.updated_at l = l.updated_at
log_sort_value LogSortField.log_value l = l.log_value
log_sort_value LogSortField.logged_at l = l.logged_at

unfoldable pub list_logs : List Metric → LogQuery → Option Position → List MetricLog → LogList
list_logs metrics query after rows = record {
  page =
      page_of (log_sort_value query.field) log_key query.dir (clamp_log_limit query.limit) after
        (select_where (selects_log metrics query) rows);
  limit = clamp_log_limit query.limit;
  total_count =
      if query.include_total then some (count_where (selects_log metrics query) rows) else none;
}
