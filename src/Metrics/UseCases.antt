-- ===== src/Metrics/UseCases.antt =====
-- CreateMetric, UpdateMetric and DeleteMetric (src/features/public/metric/application/use-cases).
-- `fails` says whether the invalidation of the caches throws.
use lakira_backend.Base.{
  ℕ, Bool, true, false, not, ◌&&◌, Option, none, some, [], ◌∷◌, ◌++◌, ◌==◌, any, is_some,
  if◌then◌else◌,
}
use lakira_backend.Text.{Text, trim, text_eq}
use lakira_backend.Store.{
  Metric, MetricCategory, MetricSettings, DisplayOptions, Result, ok, err, Action, ◌>>=◌, ◌>>◌,
  pure, throw, gets, throw_if, modify_db, run_in_transaction, domain_error, conflict, not_found,
  validation, plain_error, unique_violation,
}
use lakira_backend.Settings.Entity.{Patch, unset, set}
use lakira_backend.Metrics.Entity.{MetricUpdate, update_metric_entity}
use lakira_backend.Metrics.Table.{
  exists_by_name, original_metric_exists, insert_metric, find_owned_by_id, save_metric,
  delete_metric_row,
}

abbrev pub is_category_of : ℕ → ℕ → ℕ → MetricCategory → Bool
is_category_of user_id organization_id id c =
    c.user_id == user_id
    && c.organization_id == organization_id
    && c.id == id
    && not (is_some c.deleted_at)

abbrev pub category_exists : ℕ → ℕ → ℕ → Action Bool
category_exists user_id organization_id id =
    gets (λ d. any (is_category_of user_id organization_id id) d.tracking.categories)

-- `#E897A3` and `line`
abbrev pub default_color : Text
default_color = b'#' ∷ b'E' ∷ b'8' ∷ b'9' ∷ b'7' ∷ b'A' ∷ b'3' ∷ []

abbrev pub line_chart : Text
line_chart = b'l' ∷ b'i' ∷ b'n' ∷ b'e' ∷ []

abbrev pub default_display : DisplayOptions
default_display = record {
  show_on_dashboard = true;
  priority = some 1;
  chart_type = some line_chart;
  color = some default_color;
}

abbrev pub default_settings : ℕ → ℕ → ℕ → ℕ → MetricSettings
default_settings now id metric_id organization_id = record {
  id = id;
  metric_id = metric_id;
  organization_id = organization_id;
  is_active = true;
  goal_enabled = false;
  goal_type = none;
  goal_value = none;
  time_frame_enabled = false;
  start_date = none;
  deadline_date = none;
  alert_enabled = false;
  alert_thresholds = some 80;
  is_achieved = false;
  display_options = default_display;
  created_at = now;
  updated_at = now;
}

-- The insert of a row of settings, whose metric is unique (migration 20251217170020).
unfoldable pub insert_settings : MetricSettings → Action MetricSettings
insert_settings s = do
  rows ← gets (λ d. d.tracking.settings)
  throw_if (any (λ o. o.metric_id == s.metric_id) rows) unique_violation
  modify_db
      (λ d. record d { tracking = record d.tracking { settings = d.tracking.settings ++ s ∷ [] } })
  pure s

pub record CreateMetricInput : Type 0 where
  pub user_id : ℕ
  pub organization_id : ℕ
  pub category_id : Option ℕ
  pub original_metric_id : Option ℕ
  pub name : Text
  pub description : Option Text
  pub default_unit : Text
  pub is_public : Bool

abbrev pub created_metric : ℕ → ℕ → CreateMetricInput → Metric
created_metric now id input = record {
  id = id;
  user_id = input.user_id;
  organization_id = input.organization_id;
  name = input.name;
  default_unit = input.default_unit;
  is_public = input.is_public;
  category_id = input.category_id;
  original_metric_id = input.original_metric_id;
  description = input.description;
  created_at = now;
  updated_at = now;
  deleted_at = none;
}

abbrev pub check_category : ℕ → ℕ → Option ℕ → Action (Unit {0})
check_category user_id organization_id none = pure tt
check_category user_id organization_id (some id) = do
  exists ← category_exists user_id organization_id id
  throw_if (not exists) (domain_error not_found)

abbrev pub check_original : ℕ → Option ℕ → Action (Unit {0})
check_original user_id none = pure tt
check_original user_id (some id) = do
  exists ← original_metric_exists user_id id
  throw_if (not exists) (domain_error not_found)

abbrev pub invalidate : Bool → Action (Unit {0})
invalidate fails = throw_if fails plain_error

-- `value ?? null` of a field that may be left out
abbrev pub given : {A : Type 0} → Patch (Option A) → Option A
given unset = none
given (set a) = a

-- `Object.keys(update).length === 0`
abbrev pub is_empty_update : MetricUpdate → Bool
is_empty_update u =
    is_unset u.name
    && is_unset u.description
    && is_unset u.default_unit
    && is_unset u.category_id
    && is_unset u.original_metric_id
    && is_unset u.is_public
  where
    is_unset : {A : Type 0} → Patch A → Bool
    is_unset unset = true
    is_unset (set _) = false

-- The throw of an entity's setter.
abbrev pub or_rethrow : {A : Type 0} → Result A → Action A
or_rethrow (ok a) = pure a
or_rethrow (err e) = throw e

module _ (to_lower_case : Text → Text) (fails : Bool) where
  -- The transaction of a creation: the metric with its default settings.
  unfoldable pub create_with_settings : (now id settings_id : ℕ) → CreateMetricInput → Action Metric
  create_with_settings now id settings_id input = do
    metric ← insert_metric to_lower_case (created_metric now id input)
    insert_settings (default_settings now settings_id metric.id input.organization_id)
    invalidate fails
    pure metric

  unfoldable pub create_metric : (now id settings_id : ℕ) → CreateMetricInput → Action Metric
  create_metric now id settings_id input = do
    exists ← exists_by_name to_lower_case input.user_id input.organization_id input.name
    throw_if exists (domain_error conflict)
    check_category input.user_id input.organization_id input.category_id
    check_original input.user_id input.original_metric_id
    run_in_transaction (create_with_settings now id settings_id input)

  -- A new name, unless it differs in case and outer spaces only.
  abbrev pub check_new_name : ℕ → ℕ → Metric → Patch Text → Action (Unit {0})
  check_new_name user_id organization_id metric unset = pure tt
  check_new_name user_id organization_id metric (set name) =
      if text_eq (to_lower_case (trim name)) (to_lower_case (trim metric.name))
      then pure tt
      else (exists_by_name to_lower_case user_id organization_id name >>= λ exists.
          throw_if exists (domain_error conflict))

  unfoldable pub update_metric : (now user_id organization_id id : ℕ) → MetricUpdate → Action Metric
  update_metric now user_id organization_id id data_ = do
    metric ← find_owned_by_id user_id organization_id id
    check_category user_id organization_id (given data_.category_id)
    check_original user_id (given data_.original_metric_id)
    check_new_name user_id organization_id metric data_.name
    throw_if (is_empty_update data_) (domain_error validation)
    changed ← or_rethrow (update_metric_entity now data_ metric)
    saved ← save_metric to_lower_case now organization_id changed
    invalidate fails
    pure saved

  unfoldable pub delete_metric : (now user_id organization_id id : ℕ) → Action Metric
  delete_metric now user_id organization_id id = do
    metric ← find_owned_by_id user_id organization_id id
    invalidate fails
    delete_metric_row now organization_id metric
    pure metric
