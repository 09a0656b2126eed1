-- ===== src/Settings/UseCases.antt =====
-- The use cases of src/features/public/metric-settings/application/use-cases. No user id is
-- `none`; whether the invalidation of the caches throws is `fails`.
use lakira_backend.Base.{
  ℕ, Bool, true, false, not, ◌&&◌, ◌||◌, Option, none, some, get_or_else, is_some, if◌then◌else◌,
}
use lakira_backend.Text.{Text}
use lakira_backend.Store.{
  MetricSettings, DisplayOptions, GoalType, Result, ok, Action, ◌>>=◌, ◌>>◌, pure, or_throw,
  throw_if, domain_error, unauthorized, not_found, conflict,
}
use lakira_backend.Metrics.Table.{ensure_metric_ownership}
use lakira_backend.Metrics.UseCases.{default_color, line_chart, invalidate, or_rethrow}
use lakira_backend.Settings.Entity.{
  Patch, unset, set, SettingsUpdate, update_details, mark_achieved, update_display_options,
}
use lakira_backend.Settings.Table.{
  find_by_metric_id, find_settings_by_id, create_settings, save_settings, delete_settings,
}

-- A patch of the display options: a field that is left out or null keeps the current value.
pub record DisplayPatch : Type 0 where
  pub show_on_dashboard : Option Bool
  pub priority : Option ℕ
  pub chart_type : Option Text
  pub color : Option Text

abbrev pub or_keep : {A : Type 0} → Option A → Option A → Option A
or_keep none current = current
or_keep (some a) current = some a

abbrev pub patch_display : DisplayPatch → DisplayOptions → DisplayOptions
patch_display p current = record {
  show_on_dashboard = get_or_else p.show_on_dashboard current.show_on_dashboard;
  priority = or_keep p.priority current.priority;
  chart_type = or_keep p.chart_type current.chart_type;
  color = or_keep p.color current.color;
}

abbrev pub is_present : {A : Type 0} → Patch A → Bool
is_present unset = false
is_present (set _) = true

-- The update that a payload makes: dates that come without the switch turn the time frame on.
abbrev pub with_time_frame : SettingsUpdate → SettingsUpdate
with_time_frame u =
    if not (is_present u.time_frame_enabled)
      && (is_present u.start_date || is_present u.deadline_date)
    then record u { time_frame_enabled = set true }
    else u

-- `isActive` is not in a payload.
abbrev pub update_of : SettingsUpdate → SettingsUpdate
update_of payload = with_time_frame (record payload { is_active = unset })

pub record CreateSettingsInput : Type 0 where
  pub is_active : Option Bool
  pub goal_enabled : Option Bool
  pub goal_type : Option GoalType
  pub goal_value : Option ℕ
  pub time_frame_enabled : Option Bool
  pub start_date : Option ℕ
  pub deadline_date : Option ℕ
  pub alert_enabled : Option Bool
  pub alert_thresholds : Option ℕ
  pub display_options : DisplayPatch

-- `input.alertThresholds ?? (input.alertEnabled ? 80 : null)`
abbrev pub threshold_or_default : Option ℕ → Bool → Option ℕ
threshold_or_default (some t) enabled = some t
threshold_or_default none true = some 80
threshold_or_default none false = none

abbrev pub new_settings :
    (now id metric_id organization_id : ℕ) → CreateSettingsInput → MetricSettings
new_settings now id metric_id organization_id input = record {
  id = id;
  metric_id = metric_id;
  organization_id = organization_id;
  is_active = get_or_else input.is_active true;
  goal_enabled = get_or_else input.goal_enabled false;
  goal_type = input.goal_type;
  goal_value = input.goal_value;
  time_frame_enabled = get_or_else input.time_frame_enabled false;
  start_date = input.start_date;
  deadline_date = input.deadline_date;
  alert_enabled = get_or_else input.alert_enabled false;
  alert_thresholds =
      threshold_or_default input.alert_thresholds (get_or_else input.alert_enabled false);
  is_achieved = false;
  display_options = record {
    show_on_dashboard = get_or_else input.display_options.show_on_dashboard true;
    priority = some (get_or_else input.display_options.priority 1);
    chart_type = some (get_or_else input.display_options.chart_type line_chart);
    color = some (get_or_else input.display_options.color default_color);
  };
  created_at = now;
  updated_at = now;
}

module _ (date_only : ℕ → ℕ) (fails : Bool) where
  unfoldable pub create_metric_settings :
      (now id : ℕ) (user_id : Option ℕ) (organization_id metric_id : ℕ)
      → CreateSettingsInput
      → Action MetricSettings
  create_metric_settings now id user_id organization_id metric_id input = do
    user ← or_throw user_id (domain_error unauthorized)
    ensure_metric_ownership (some user) organization_id metric_id
    existing ← find_by_metric_id organization_id metric_id
    throw_if (is_some existing) (domain_error conflict)
    created ← create_settings date_only (new_settings now id metric_id organization_id input)
    invalidate fails
    pure created

  -- What the four use cases that change settings share: look them up, change them, save them.
  unfoldable pub change_settings :
      (now : ℕ) (user_id : Option ℕ) (organization_id id : ℕ)
      → (MetricSettings → Result MetricSettings)
      → Action MetricSettings
  change_settings now user_id organization_id id change = do
    user ← or_throw user_id (domain_error unauthorized)
    found ← find_settings_by_id user organization_id id
    settings ← or_throw found (domain_error not_found)
    changed ← or_rethrow (change settings)
    saved ← save_settings date_only now organization_id changed
    invalidate fails
    pure saved

  unfoldable pub update_metric_settings :
      (now : ℕ) (user_id : Option ℕ) (organization_id id : ℕ)
      → SettingsUpdate
      → Action MetricSettings
  update_metric_settings now user_id organization_id id payload =
      change_settings now user_id organization_id id (update_details now (update_of payload))

  unfoldable pub change_display_options :
      (now : ℕ) (user_id : Option ℕ) (organization_id id : ℕ) → DisplayPatch → Action MetricSettings
  change_display_options now user_id organization_id id patch =
      change_settings now user_id organization_id id
        λ s. ok (update_display_options now (patch_display patch s.display_options) s)

  unfoldable pub update_goal_achievement :
      (now : ℕ) (user_id : Option ℕ) (organization_id id : ℕ) → Action MetricSettings
  update_goal_achievement now user_id organization_id id =
      change_settings now user_id organization_id id λ s. ok (mark_achieved now s)

  unfoldable pub delete_metric_settings :
      (user_id : Option ℕ) (organization_id id : ℕ) → Action (Unit {0})
  delete_metric_settings user_id organization_id id = do
    user ← or_throw user_id (domain_error unauthorized)
    found ← find_settings_by_id user organization_id id
    settings ← or_throw found (domain_error not_found)
    delete_settings organization_id settings
    invalidate fails
