-- ===== src/Settings/Table.antt =====
-- The table of settings (MetricSettingsRepositorySequelize, and the validators of its model). The
-- column type keeps a date's day: `date_only` is what the library makes of a time.
use lakira_backend.Base.{
  ℕ, Bool, false, ◌&&◌, ◌||◌, Option, none, some, List, [], ◌∷◌, ◌++◌, ◌==◌, leb, ltb, any,
  find_where, update_where, delete_where,
}
use mathlib.Core.Option
use lakira_backend.Store.{
  Metric, MetricSettings, Db, Action, ◌>>=◌, ◌>>◌, pure, gets, or_throw, throw_if, modify_db,
  app_error, plain_error,
}
use lakira_backend.Metrics.Table.{is_owned}
use lakira_backend.Metrics.UseCases.{default_color, line_chart}

abbrev pub some_or : {A : Type 0} → Option A → A → Option A
some_or none other = some other
some_or (some a) other = some a

-- `toEntity`: a chart type and a colour that are null are read as the defaults.
abbrev pub to_entity : MetricSettings → MetricSettings
to_entity s = record s {
  display_options = record s.display_options {
    chart_type = some_or s.display_options.chart_type line_chart;
    color = some_or s.display_options.color default_color;
  };
}

abbrev pub set_settings : (List MetricSettings → List MetricSettings) → Db → Db
set_settings f d = record d { tracking = record d.tracking { settings = f d.tracking.settings } }

-- The validators: a goal above 0, a deadline after the start, a threshold of at most 100.
abbrev pub goal_fails : Option ℕ → Bool
goal_fails none = false
goal_fails (some v) = v == 0

abbrev pub deadline_fails : Option ℕ → Option ℕ → Bool
deadline_fails (some start) (some deadline) = leb deadline start
deadline_fails _ _ = false

abbrev pub threshold_fails : Option ℕ → Bool
threshold_fails none = false
threshold_fails (some v) = ltb 100 v

abbrev pub fails_validation : MetricSettings → Bool
fails_validation s =
    goal_fails s.goal_value
    || deadline_fails s.start_date s.deadline_date
    || threshold_fails s.alert_thresholds

abbrev pub day_of : (ℕ → ℕ) → Option ℕ → Option ℕ
day_of date_only none = none
day_of date_only (some t) = some (date_only t)

abbrev pub is_of_metric : ℕ → ℕ → MetricSettings → Bool
is_of_metric organization_id metric_id s =
    s.metric_id == metric_id && s.organization_id == organization_id

-- `findByMetricId`
abbrev pub find_by_metric_id : ℕ → ℕ → Action (Option MetricSettings)
find_by_metric_id organization_id metric_id = gets (λ d.
    Option.map to_entity (find_where (is_of_metric organization_id metric_id) d.tracking.settings))

-- The inner join with the user's metric.
abbrev pub is_settings_of : ℕ → ℕ → ℕ → List Metric → MetricSettings → Bool
is_settings_of user_id organization_id id metrics s =
    s.id == id
    && s.organization_id == organization_id
    && any (is_owned user_id organization_id s.metric_id) metrics

-- `findById`
unfoldable pub find_settings_by_id : ℕ → ℕ → ℕ → Action (Option MetricSettings)
find_settings_by_id user_id organization_id id = gets (λ d.
    Option.map to_entity (
      find_where (is_settings_of user_id organization_id id d.tracking.metrics)
        d.tracking.settings))

abbrev pub is_settings_row : ℕ → ℕ → MetricSettings → Bool
is_settings_row organization_id id s = s.id == id && s.organization_id == organization_id

module _ (date_only : ℕ → ℕ) where
  -- What a row holds of the values that are written.
  abbrev pub stored : MetricSettings → MetricSettings
  stored s = record s {
    start_date = day_of date_only s.start_date;
    deadline_date = day_of date_only s.deadline_date;
  }

  -- `create`: a violation of the unique metric becomes a conflict.
  unfoldable pub create_settings : MetricSettings → Action MetricSettings
  create_settings s = do
    throw_if (fails_validation (stored s)) plain_error
    rows ← gets (λ d. d.tracking.settings)
    throw_if (any (λ o. o.metric_id == s.metric_id) rows) (app_error 409)
    modify_db (set_settings (λ ss. ss ++ stored s ∷ []))
    pure (to_entity (stored s))

  -- `save`: the columns that it writes.
  abbrev pub saved_settings : ℕ → MetricSettings → MetricSettings → MetricSettings
  saved_settings now s row = stored (record row {
    is_active = s.is_active;
    goal_enabled = s.goal_enabled;
    goal_type = s.goal_type;
    goal_value = s.goal_value;
    time_frame_enabled = s.time_frame_enabled;
    start_date = s.start_date;
    deadline_date = s.deadline_date;
    alert_enabled = s.alert_enabled;
    alert_thresholds = s.alert_thresholds;
    is_achieved = s.is_achieved;
    display_options = s.display_options;
    updated_at = now;
  })

  unfoldable pub save_settings : ℕ → ℕ → MetricSettings → Action MetricSettings
  save_settings now organization_id s = do
    throw_if (fails_validation (stored s)) plain_error
    row ← gets (λ d. find_where (is_settings_row organization_id s.id) d.tracking.settings)
    found ← or_throw row (app_error 404)
    modify_db
        (set_settings (update_where (is_settings_row organization_id s.id) (saved_settings now s)))
    pure (to_entity (saved_settings now s found))

abbrev pub delete_settings : ℕ → MetricSettings → Action (Unit {0})
delete_settings organization_id s =
    modify_db (set_settings (delete_where (is_settings_row organization_id s.id)))
