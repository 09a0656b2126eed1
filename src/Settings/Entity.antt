-- ===== src/Settings/Entity.antt =====
-- The entity MetricSettings (src/features/public/metric-settings/domain/entities). A field of an
-- update is left out, or set, to null where the field takes null.
use lakira_backend.Base.{ℕ, Bool, true, false, not, ◌||◌, Option, none, some, leb, if◌then◌else◌}
use lakira_backend.Text.{Text}
use lakira_backend.Store.{
  MetricSettings, DisplayOptions, GoalType, Result, ok, err, domain_error, validation,
}

pub data Patch (A : Type 0) : Type 0 where
  unset : Patch A
  set : A → Patch A

module _ {A : Type 0} where
  -- A key of `{ ...old, ...update }`
  abbrev pub patched : Patch A → A → A
  patched unset old = old
  patched (set a) old = a

  -- `update.key == null`
  abbrev pub lacks : Patch (Option A) → Bool
  lacks unset = true
  lacks (set none) = true
  lacks (set (some a)) = false

abbrev pub is_set_to : Bool → Patch Bool → Bool
is_set_to b unset = false
is_set_to true (set c) = c
is_set_to false (set c) = not c

pub record DisplayUpdate : Type 0 where
  pub show_on_dashboard : Patch Bool
  pub priority : Patch (Option ℕ)
  pub chart_type : Patch (Option Text)
  pub color : Patch (Option Text)

pub record SettingsUpdate : Type 0 where
  pub goal_enabled : Patch Bool
  pub goal_type : Patch (Option GoalType)
  pub goal_value : Patch (Option ℕ)
  pub time_frame_enabled : Patch Bool
  pub start_date : Patch (Option ℕ)
  pub deadline_date : Patch (Option ℕ)
  pub alert_enabled : Patch Bool
  pub alert_thresholds : Patch (Option ℕ)
  pub display_options : Patch DisplayUpdate
  pub is_active : Patch Bool

-- The three groups of checks; each may clear what it guards, or throw.
abbrev pub check_goal : SettingsUpdate → Result SettingsUpdate
check_goal u =
    if is_set_to false u.goal_enabled
    then ok (record u { goal_type = set none; goal_value = set none })
    else if is_set_to true u.goal_enabled
    then (if lacks u.goal_type || lacks u.goal_value then err (domain_error validation) else ok u)
    else ok u

-- `!update.startDate || !update.deadlineDate`, or the dates in the wrong order; a Date is truthy.
abbrev pub dates_fail : Patch (Option ℕ) → Patch (Option ℕ) → Bool
dates_fail (set (some start)) (set (some deadline)) = leb deadline start
dates_fail _ _ = true

abbrev pub check_time_frame : SettingsUpdate → Result SettingsUpdate
check_time_frame u =
    if is_set_to false u.time_frame_enabled
    then ok (record u { start_date = set none; deadline_date = set none })
    else if is_set_to true u.time_frame_enabled
    then (if dates_fail u.start_date u.deadline_date then err (domain_error validation) else ok u)
    else ok u

abbrev pub check_alert : SettingsUpdate → Result SettingsUpdate
check_alert u =
    if is_set_to false u.alert_enabled
    then ok (record u { alert_thresholds = set none })
    else if is_set_to true u.alert_enabled
    then (if lacks u.alert_thresholds then err (domain_error validation) else ok u)
    else ok u

abbrev pub then_check : {A B : Type 0} → Result A → (A → Result B) → Result B
then_check (ok a) f = f a
then_check (err e) f = err e

-- `Boolean(value)` of a key that may be left out
abbrev pub shown : Patch Bool → Bool
shown unset = false
shown (set b) = b

-- The options merged; where there is an update of them, `showOnDashboard` is always in it.
abbrev pub merge_display : Patch DisplayUpdate → DisplayOptions → DisplayOptions
merge_display unset old = old
merge_display (set u) old = record {
  show_on_dashboard = shown u.show_on_dashboard;
  priority = patched u.priority old.priority;
  chart_type = patched u.chart_type old.chart_type;
  color = patched u.color old.color;
}

abbrev pub apply_update : ℕ → SettingsUpdate → MetricSettings → MetricSettings
apply_update now u s = record s {
  is_active = patched u.is_active s.is_active;
  goal_enabled = patched u.goal_enabled s.goal_enabled;
  goal_type = patched u.goal_type s.goal_type;
  goal_value = patched u.goal_value s.goal_value;
  time_frame_enabled = patched u.time_frame_enabled s.time_frame_enabled;
  start_date = patched u.start_date s.start_date;
  deadline_date = patched u.deadline_date s.deadline_date;
  alert_enabled = patched u.alert_enabled s.alert_enabled;
  alert_thresholds = patched u.alert_thresholds s.alert_thresholds;
  display_options = merge_display u.display_options s.display_options;
  updated_at = now;
}

-- `updateDetails`
unfoldable pub update_details : ℕ → SettingsUpdate → MetricSettings → Result MetricSettings
update_details now u s = then_check (check_goal u) λ goal.
    then_check (check_time_frame goal)
      λ frame. then_check (check_alert frame) λ alert. ok (apply_update now alert s)

abbrev pub mark_achieved : ℕ → MetricSettings → MetricSettings
mark_achieved now s = record s { is_achieved = true; updated_at = now }

abbrev pub update_display_options : ℕ → DisplayOptions → MetricSettings → MetricSettings
update_display_options now display s = record s { display_options = display; updated_at = now }
