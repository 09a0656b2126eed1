-- ===== src/Store/Tracked.antt =====
-- The rows of what a user tracks: src/features/public/metric, metric-category, metric-settings and
-- metric-log. A figure is a whole number of a unit so small that each is one. A date without a time
-- is the first millisecond of its day.
use lakira_backend.Base.{ℕ, Bool, Option, List}
use lakira_backend.Text.{Text}

pub record Metric : Type 0 where
  pub id : ℕ
  pub user_id : ℕ
  pub organization_id : ℕ
  pub name : Text
  pub default_unit : Text
  pub is_public : Bool
  pub category_id : Option ℕ
  pub original_metric_id : Option ℕ
  pub description : Option Text
  pub created_at : ℕ
  pub updated_at : ℕ
  pub deleted_at : Option ℕ

pub record MetricCategory : Type 0 where
  pub id : ℕ
  pub user_id : ℕ
  pub organization_id : ℕ
  pub name : Text
  pub color : Text
  pub icon : Text
  pub created_at : ℕ
  pub updated_at : ℕ
  pub deleted_at : Option ℕ

pub data GoalType : Type 0 where
  cumulative incremental : GoalType

pub record DisplayOptions : Type 0 where
  pub show_on_dashboard : Bool
  pub priority : Option ℕ
  pub chart_type : Option Text
  pub color : Option Text

pub record MetricSettings : Type 0 where
  pub id : ℕ
  pub metric_id : ℕ
  pub organization_id : ℕ
  pub is_active : Bool
  pub goal_enabled : Bool
  pub goal_type : Option GoalType
  pub goal_value : Option ℕ
  pub time_frame_enabled : Bool
  pub start_date : Option ℕ
  pub deadline_date : Option ℕ
  pub alert_enabled : Bool
  pub alert_thresholds : Option ℕ
  pub is_achieved : Bool
  pub display_options : DisplayOptions
  pub created_at : ℕ
  pub updated_at : ℕ

pub data LogType : Type 0 where
  manual automatic : LogType

pub record MetricLog : Type 0 where
  pub id : ℕ
  pub metric_id : ℕ
  pub organization_id : ℕ
  pub log_value : ℕ
  pub type : LogType
  pub logged_at : ℕ
  pub created_at : ℕ
  pub updated_at : ℕ

pub record Tracking : Type 0 where
  pub metrics : List Metric
  pub categories : List MetricCategory
  pub settings : List MetricSettings
  pub logs : List MetricLog
