-- ===== src/Metrics/Table.antt =====
-- The table of metrics (src/features/public/metric/infrastructure/persistence/repositories). The
-- model is paranoid, and a unique index of the kept rows is on the user and the lower-cased name,
-- whatever the organization (migration 20251217170010).
use lakira_backend.Base.{
  ℕ, Bool, not, ◌&&◌, ◌||◌, Option, none, some, List, [], ◌∷◌, ◌++◌, ◌==◌, any, find_where,
  update_where, is_some,
}
use lakira_backend.Text.{Text, trim, text_eq}
use lakira_backend.Store.{
  Metric, Db, Action, ◌>>=◌, ◌>>◌, pure, gets, or_throw, throw_if, modify_db, app_error,
  domain_error, unauthorized, not_found, forbidden, unique_violation,
}

abbrev pub is_kept_metric : Metric → Bool
is_kept_metric m = not (is_some m.deleted_at)

abbrev pub set_metrics : (List Metric → List Metric) → Db → Db
set_metrics f d = record d { tracking = record d.tracking { metrics = f d.tracking.metrics } }

abbrev pub is_owned : ℕ → ℕ → ℕ → Metric → Bool
is_owned user_id organization_id id m =
    m.id == id && m.user_id == user_id && m.organization_id == organization_id && is_kept_metric m

unfoldable pub find_owned_by_id : ℕ → ℕ → ℕ → Action Metric
find_owned_by_id user_id organization_id id = do
  found ← gets (λ d. find_where (is_owned user_id organization_id id) d.tracking.metrics)
  or_throw found (app_error 404)

-- The columns that `save` writes; the update touches `updatedAt`.
abbrev pub saved_metric : ℕ → Metric → Metric → Metric
saved_metric now m row = record row {
  name = m.name;
  description = m.description;
  default_unit = m.default_unit;
  category_id = m.category_id;
  original_metric_id = m.original_metric_id;
  is_public = m.is_public;
  updated_at = now;
}

-- `destroy` of a paranoid row.
unfoldable pub delete_metric_row : ℕ → ℕ → Metric → Action (Unit {0})
delete_metric_row now organization_id m =
    find_owned_by_id m.user_id organization_id m.id
    >> modify_db (
        set_metrics (
          update_where (is_owned m.user_id organization_id m.id)
            (λ row. record row { deleted_at = some now })))

-- `toLowerCase`, and the database's `lower`, are one parameter: for the names that pass validation
-- they are taken to agree.
module _ (to_lower_case : Text → Text) where
  abbrev pub has_name : ℕ → ℕ → Text → Metric → Bool
  has_name user_id organization_id name m =
      m.user_id == user_id
      && m.organization_id == organization_id
      && text_eq (to_lower_case m.name) (to_lower_case (trim name))
      && is_kept_metric m

  abbrev pub exists_by_name : ℕ → ℕ → Text → Action Bool
  exists_by_name user_id organization_id name =
      gets (λ d. any (has_name user_id organization_id name) d.tracking.metrics)

  -- A row that the unique index does not let in beside `m`.
  abbrev pub clashes : Metric → Metric → Bool
  clashes m other =
      other.user_id == m.user_id
      && text_eq (to_lower_case other.name) (to_lower_case m.name)
      && is_kept_metric other
      && not (other.id == m.id)

  unfoldable pub insert_metric : Metric → Action Metric
  insert_metric m = do
    rows ← gets (λ d. d.tracking.metrics)
    throw_if (any (clashes m) rows) unique_violation
    modify_db (set_metrics (λ ms. ms ++ m ∷ []))
    pure m

  unfoldable pub save_metric : ℕ → ℕ → Metric → Action Metric
  save_metric now organization_id m = do
    instance_ ← find_owned_by_id m.user_id organization_id m.id
    rows ← gets (λ d. d.tracking.metrics)
    throw_if (any (clashes (saved_metric now m instance_)) rows) unique_violation
    modify_db
        (set_metrics (update_where (is_owned m.user_id organization_id m.id) (saved_metric now m)))
    pure (saved_metric now m instance_)

-- A public metric of any organization, or one of the user's own.
abbrev pub may_clone : ℕ → ℕ → Metric → Bool
may_clone user_id id m = m.id == id && (m.is_public || m.user_id == user_id) && is_kept_metric m

abbrev pub original_metric_exists : ℕ → ℕ → Action Bool
original_metric_exists user_id id = gets (λ d. any (may_clone user_id id) d.tracking.metrics)

abbrev pub is_metric_of : ℕ → ℕ → Metric → Bool
is_metric_of organization_id id m =
    m.id == id && m.organization_id == organization_id && is_kept_metric m

-- `validateMetricAccess`; no user id is `none`.
unfoldable pub ensure_metric_ownership : Option ℕ → ℕ → ℕ → Action (Unit {0})
ensure_metric_ownership none organization_id metric_id w =
    or_throw none (domain_error unauthorized) w
ensure_metric_ownership (some user_id) organization_id metric_id w =
    (do
      found ← gets (λ d. find_where (is_metric_of organization_id metric_id) d.tracking.metrics)
      m ← or_throw found (domain_error not_found)
      throw_if (not (m.user_id == user_id)) (domain_error forbidden))
      w
