-- ===== src/Categories/UseCases.antt =====
-- The use cases of src/features/public/metric-category/application/use-cases; whether the
-- invalidation of the caches throws is `fails`.
use lakira_backend.Base.{ℕ, Bool, false, not, ◌&&◌, Option, none, some, List, [], ◌∷◌}
use lakira_backend.Text.{Text, text_eq, is_empty}
use lakira_backend.Store.{
  MetricCategory, Action, ◌>>=◌, ◌>>◌, pure, or_throw, throw_if, domain_error, conflict, not_found,
}
use lakira_backend.Metrics.UseCases.{invalidate, or_rethrow}
use lakira_backend.Categories.Values.{CategoryParams, generate_category}
use lakira_backend.Categories.Table.{
  CategoryData, CategoryPatch, find_category_by_id, category_exists_by_name, create_category_row,
  update_category_row, delete_category_row,
}

-- `name && name !== current.name`
abbrev pub is_new_name : Option Text → MetricCategory → Bool
is_new_name none current = false
is_new_name (some name) current = not (is_empty name) && not (text_eq name current.name)

module _ (to_lower_case : Text → Text) (fails : Bool) where
  unfoldable pub create_category :
      (now id user_id organization_id : ℕ) → CategoryData → Action MetricCategory
  create_category now id user_id organization_id data_ = do
    exists ← category_exists_by_name user_id organization_id data_.name
    throw_if exists (domain_error conflict)
    category ← create_category_row to_lower_case now id user_id organization_id data_
    invalidate fails
    pure category

  abbrev pub check_name : ℕ → ℕ → Option Text → MetricCategory → Action (Unit {0})
  check_name user_id organization_id none current = pure tt
  check_name user_id organization_id (some name) current = do
    exists ← category_exists_by_name user_id organization_id name
    throw_if (is_new_name (some name) current && exists) (domain_error conflict)

  unfoldable pub update_category :
      (now user_id organization_id id : ℕ) → CategoryPatch → Action MetricCategory
  update_category now user_id organization_id id patch = do
    found ← find_category_by_id user_id organization_id id
    current ← or_throw found (domain_error not_found)
    check_name user_id organization_id patch.name current
    updated ← update_category_row to_lower_case now user_id organization_id id patch
    invalidate fails
    pure updated

  unfoldable pub delete_category : (now user_id organization_id id : ℕ) → Action (Unit {0})
  delete_category now user_id organization_id id = do
    found ← find_category_by_id user_id organization_id id
    category ← or_throw found (domain_error not_found)
    delete_category_row now user_id organization_id id
    invalidate fails

  -- The loop of GenerateDummyCategories over what each round draws: the id, and what the factory
  -- picks. Each row is a statement of its own.
  unfoldable pub create_dummy_categories :
      (now user_id organization_id : ℕ) → List (ℕ × CategoryParams) → Action (List MetricCategory)
  create_dummy_categories now user_id organization_id [] = pure []
  create_dummy_categories now user_id organization_id ((id, drawn) ∷ draws) = do
    aggregate ← or_rethrow (
        generate_category now id user_id organization_id drawn
          (record { name = none; color = none; icon = none }))
    category ←
        create_category_row to_lower_case now id user_id organization_id (record {
          name = aggregate.name;
          color = some aggregate.color;
          icon = some aggregate.icon;
        })
    created ← create_dummy_categories now user_id organization_id draws
    pure (category ∷ created)

  unfoldable pub generate_dummy_categories :
      (now user_id organization_id : ℕ) → List (ℕ × CategoryParams) → Action (List MetricCategory)
  generate_dummy_categories now user_id organization_id draws = do
    created ← create_dummy_categories now user_id organization_id draws
    invalidate fails
    pure created
