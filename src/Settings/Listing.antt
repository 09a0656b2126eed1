-- ===== src/Settings/Listing.antt =====
-- `listByCursor` of MetricSettingsRepositorySequelize. A cursor is what its text decodes to; false
-- comes before true.
use lakira_backend.Base.{
  ℕ, min, max, Bool, true, ◌&&◌, Option, none, some, List, ◌==◌, if◌then◌else◌, any, map, bit,
  select_where, count_where,
}
use lakira_backend.Store.{Metric, MetricSettings}
use lakira_backend.Metrics.Table.{is_owned}
use lakira_backend.Paging.Window.{Dir, Position, Page, page_of}
use lakira_backend.Settings.Table.{to_entity}

pub data SettingsSortField : Type 0 where
  created_at updated_at is_active : SettingsSortField

pub record SettingsQuery : Type 0 where
  pub user_id : ℕ
  pub organization_id : ℕ
  pub limit : ℕ
  pub field : SettingsSortField
  pub dir : Dir
  pub filter_metric_id : Option ℕ
  pub filter_is_active : Option Bool
  pub include_total : Bool

pub record SettingsList : Type 0 where
  pub page : Page MetricSettings
  pub limit : ℕ
  pub total_count : Option ℕ

abbrev pub settings_key : MetricSettings → ℕ
settings_key s = s.id

abbrev pub clamp_settings_limit : ℕ → ℕ
clamp_settings_limit limit = min (max (if limit == 0 then 20 else limit) 1) 100

abbrev pub is_metric : Option ℕ → ℕ → Bool
is_metric none id = true
is_metric (some m) id = id == m

abbrev pub has_activity : Option Bool → Bool → Bool
has_activity none b = true
has_activity (some a) b = bit a == bit b

-- `buildWhere` and `baseIncludeForOwnership`
abbrev pub selects_settings : List Metric → SettingsQuery → MetricSettings → Bool
selects_settings metrics query s =
    is_metric query.filter_metric_id s.metric_id
    && has_activity query.filter_is_active s.is_active
    && any (is_owned query.user_id query.organization_id s.metric_id) metrics

abbrev pub settings_sort_value : SettingsSortField → MetricSettings → ℕ
settings_sort_value SettingsSortField.created_at s = s.created_at
settings_sort_value SettingsSortField.updated_at s = s.updated_at
settings_sort_value SettingsSortField.is_active s = bit s.is_active

unfoldable pub list_settings :
    List Metric → SettingsQuery → Option Position → List MetricSettings → SettingsList
list_settings metrics query after rows =
    let page =
      page_of (settings_sort_value query.field) settings_key query.dir
        (clamp_settings_limit query.limit) after
        (select_where (selects_settings metrics query) rows) in
    record {
      page = record page { items = map to_entity page.items };
      limit = clamp_settings_limit query.limit;
      total_count =
          if query.include_total
          then some (count_where (selects_settings metrics query) rows)
          else none;
    }
