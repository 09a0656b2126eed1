-- ===== src/Settings/EntityLaws.antt =====
-- What updates keep of a metric's settings.
use lakira_backend.Base.{ℕ, ◌≡◌, refl, Bool, true, false, Option, none, some, arith, is_some, ltb}
use lakira_backend.Store.{MetricSettings, ok}
use lakira_backend.Settings.Entity.{unset, set, SettingsUpdate, apply_update, update_details}

abbrev pub in_order : Option ℕ → Option ℕ → Bool
in_order (some start) (some deadline) = ltb start deadline
in_order _ _ = false

-- A goal that is enabled has a type and a value, a time frame has its dates in order, and alerts
-- have a threshold.
pub record WellFormed (s : MetricSettings) : Type 0 where
  pub goal : s.goal_enabled ≡ true → (is_some s.goal_type ≡ true) × (is_some s.goal_value ≡ true)
  pub time_frame : s.time_frame_enabled ≡ true → in_order s.start_date s.deadline_date ≡ true
  pub alert : s.alert_enabled ≡ true → is_some s.alert_thresholds ≡ true

-- `{ alertThresholds: null }`
abbrev pub threshold_null : SettingsUpdate
threshold_null = record {
  goal_enabled = unset;
  goal_type = unset;
  goal_value = unset;
  time_frame_enabled = unset;
  start_date = unset;
  deadline_date = unset;
  alert_enabled = unset;
  alert_thresholds = set none;
  display_options = unset;
  is_active = unset;
}

-- An update names a switch whenever it names what the switch guards.
pub record NamesSwitches (u : SettingsUpdate) : Type 0 where
  pub goal_named : u.goal_enabled ≡ unset → (u.goal_type ≡ unset) × (u.goal_value ≡ unset)
  pub time_frame_named :
      u.time_frame_enabled ≡ unset → (u.start_date ≡ unset) × (u.deadline_date ≡ unset)
  pub alert_named : u.alert_enabled ≡ unset → u.alert_thresholds ≡ unset

-- An update that names a switch whenever it names what the switch guards keeps the settings well
-- formed: goals with a type and a value, dates in order, alerts with a threshold.
pub update_details-WellFormed :
    (now : ℕ) (u : SettingsUpdate) (s t : MetricSettings)
    → WellFormed s
    → NamesSwitches u
    → update_details now u s ≡ ok t
    → WellFormed t
unfolding update_details
update_details-WellFormed now u s t w n h = record {
  goal = λ on. ground (arith, w.goal, n.goal_named);
  time_frame = λ on. ground (arith, w.time_frame, n.time_frame_named);
  alert = λ on. ground (arith, w.alert, n.alert_named);
}

-- An update that sets the threshold to null, and names nothing else, is taken, and leaves alerts
-- that are enabled without a threshold.
pub update_details_drops_threshold :
    (now : ℕ) (s : MetricSettings)
    → s.alert_enabled ≡ true
    → (t : MetricSettings) × (update_details now threshold_null s ≡ ok t) × ¬ WellFormed t
unfolding update_details
update_details_drops_threshold now s on =
    (apply_update now threshold_null s, refl, λ w. ground (arith, w.alert))
