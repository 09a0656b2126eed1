-- ===== src/Settings/Laws.antt =====
-- What the update of a metric's settings keeps.
use lakira_backend.Base.{ℕ, ◌≡◌, arith}
use lakira_backend.Store.{MetricSettings, ok}
use lakira_backend.Settings.Entity.{unset, SettingsUpdate, update_details}
use lakira_backend.Settings.EntityLaws.{WellFormed, NamesSwitches, update_details-WellFormed}
use lakira_backend.Settings.UseCases.{update_of}

-- A payload names the switches of the goal and of the alerts whenever it names what they guard.
pub record NamesGoalAndAlert (u : SettingsUpdate) : Type 0 where
  pub goal_named : u.goal_enabled ≡ unset → (u.goal_type ≡ unset) × (u.goal_value ≡ unset)
  pub alert_named : u.alert_enabled ≡ unset → u.alert_thresholds ≡ unset

update_of-NamesSwitches : (u : SettingsUpdate) → NamesGoalAndAlert u → NamesSwitches (update_of u)
update_of-NamesSwitches u n = record {
  goal_named = ground (arith, n.goal_named);
  time_frame_named = ground arith;
  alert_named = ground (arith, n.alert_named);
}

-- A payload that names the switches of the goal and of the alerts whenever it names what they guard
-- keeps the settings well formed, whatever it does with the dates: a goal that is enabled has a
-- type and a value, a time frame has its dates in order, alerts have a threshold.
pub update_of-WellFormed :
    (now : ℕ) (payload : SettingsUpdate) (s t : MetricSettings)
    → WellFormed s
    → NamesGoalAndAlert payload
    → update_details now (update_of payload) s ≡ ok t
    → WellFormed t
update_of-WellFormed now payload s t w n h =
    update_details-WellFormed now (update_of payload) s t w (update_of-NamesSwitches payload n) h
