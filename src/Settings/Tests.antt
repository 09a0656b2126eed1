-- ===== src/Settings/Tests.antt =====
-- The theorems on settings at small inputs.
use lakira_backend.Base.{◌≡◌, refl, true, some, arith}
use lakira_backend.Store.{MetricSettings, cumulative, ok}
use lakira_backend.Metrics.UseCases.{default_settings}
use lakira_backend.Settings.Entity.{unset, set, SettingsUpdate, apply_update, update_details}
use lakira_backend.Settings.EntityLaws.{WellFormed, threshold_null, update_details_drops_threshold}
use lakira_backend.Settings.UseCases.{update_of}
use lakira_backend.Settings.Laws.{NamesGoalAndAlert, update_of-WellFormed}

abbrev plain : MetricSettings
plain = default_settings 5 70 80 9

plain-WellFormed : WellFormed plain
plain-WellFormed = record {
  goal = λ on. ground arith;
  time_frame = λ on. ground arith;
  alert = λ on. ground arith;
}

-- A goal, and dates without the switch of the time frame.
abbrev dated_goal : SettingsUpdate
dated_goal = record {
  goal_enabled = set true;
  goal_type = set (some cumulative);
  goal_value = set (some 10);
  time_frame_enabled = unset;
  start_date = set (some 100);
  deadline_date = set (some 200);
  alert_enabled = unset;
  alert_thresholds = unset;
  display_options = unset;
  is_active = unset;
}

dated_goal-Named : NamesGoalAndAlert dated_goal
dated_goal-Named = record { goal_named = λ h. ground arith; alert_named = λ h. refl }

update_of-WellFormed_example : WellFormed (apply_update 6 (update_of dated_goal) plain)
unfolding update_details
update_of-WellFormed_example =
    update_of-WellFormed 6 dated_goal plain (apply_update 6 (update_of dated_goal) plain)
      plain-WellFormed dated_goal-Named refl

-- Alerts that are enabled lose their threshold.
abbrev alerted : MetricSettings
alerted = record plain { alert_enabled = true }

threshold_lost :
    (t : MetricSettings) × (update_details 6 threshold_null alerted ≡ ok t) × ¬ WellFormed t
threshold_lost = update_details_drops_threshold 6 alerted refl
