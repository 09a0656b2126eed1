-- ===== src/Logs/Tests.antt =====
-- The theorems on logs at small inputs.
use lakira_backend.Base.{ℕ, ◌≤◌, ◌+◌, ◌≡◌, refl, true, false, none, some, [], ◌∷◌}
use lakira_backend.Text.{Text, text_eq}
use lakira_backend.Store.{Metric, World, manual}
use lakira_backend.Samples.{small_world}
use lakira_backend.Messaging.Idempotency.{was_processed, run_once}
use lakira_backend.Metrics.Table.{ensure_metric_ownership}
use lakira_backend.Logs.Table.{create_log}
use lakira_backend.Logs.DummyJob.{
  JobBody, LogDraw, max_dummy_metric_logs, parse_job, create_dummy_logs, ensure_access,
  handle_dummy_job,
}
use lakira_backend.Logs.JobLaws.{log_count, deliver_dummy_job, deliver_dummy_job_bounded}

abbrev run_metric : Metric
run_metric = record {
  id = 40;
  user_id = 1;
  organization_id = 9;
  name = b'R' ∷ [];
  default_unit = b'k' ∷ [];
  is_public = false;
  category_id = none;
  original_metric_id = none;
  description = none;
  created_at = 5;
  updated_at = 5;
  deleted_at = none;
}

abbrev tracked : World
tracked = record small_world {
  db = record small_world.db {
    tracking = record small_world.db.tracking { metrics = run_metric ∷ [] };
  };
}

-- Three logs for metric 40.
abbrev three : JobBody
three = record {
  job_id = some 60;
  user_id = some 1;
  organization_id = some 9;
  metric_id = some 40;
  count = some 3;
}

abbrev draw_at : ℕ → ℕ → LogDraw
draw_at start k = record {
  id = start + k;
  now = 7;
  log_value = k;
  logged_at = start + k;
  type = manual;
}

abbrev job_id : Text
job_id = b'j' ∷ []

abbrev dummy_queue : Text
dummy_queue = b'q' ∷ []

deliver_dummy_job_bounded_example :
    log_count (
      deliver_dummy_job true job_id dummy_queue
        (some three)
        (draw_at 100 ∷ draw_at 200 ∷ [])
        tracked)
    ≤ log_count tracked + max_dummy_metric_logs
deliver_dummy_job_bounded_example =
    deliver_dummy_job_bounded true job_id dummy_queue (some three) (draw_at 100 ∷ draw_at 200 ∷ [])
      tracked

-- The caches fail after the first delivery, and the second adds nothing.
three_are_made :
    log_count (
      deliver_dummy_job true job_id dummy_queue
        (some three)
        (draw_at 100 ∷ draw_at 200 ∷ [])
        tracked)
    ≡ 3
unfolding deliver_dummy_job handle_dummy_job parse_job ensure_access ensure_metric_ownership
    run_once was_processed create_dummy_logs create_log text_eq
three_are_made = refl
