-- ===== src/Categories/Table.antt =====
-- The table of categories (MetricCategoryRepoSequelize). The model is paranoid, and a unique index
-- of the kept rows is on the user and the lower-cased name, whatever the organization (migration
-- 20251217170000).
use lakira_backend.Base.{
  ℕ, Bool, not, ◌&&◌, Option, none, some, List, [], ◌∷◌, ◌++◌, ◌==◌, any, find_where, update_where,
  is_some, get_or_else,
}
use lakira_backend.Text.{Text, text_eq}
use lakira_backend.Store.{
  MetricCategory, Db, Action, ◌>>=◌, ◌>>◌, pure, gets, or_throw, throw_if, modify_db, plain_error,
  unique_violation,
}
use lakira_backend.Metrics.UseCases.{default_color}

abbrev pub set_categories : (List MetricCategory → List MetricCategory) → Db → Db
set_categories f d = record d {
  tracking = record d.tracking { categories = f d.tracking.categories };
}

abbrev pub is_kept_category : MetricCategory → Bool
is_kept_category c = not (is_some c.deleted_at)

abbrev pub is_category_row : ℕ → ℕ → ℕ → MetricCategory → Bool
is_category_row user_id organization_id id c =
    c.id == id && c.user_id == user_id && c.organization_id == organization_id && is_kept_category c

abbrev pub find_category_by_id : ℕ → ℕ → ℕ → Action (Option MetricCategory)
find_category_by_id user_id organization_id id =
    gets (λ d. find_where (is_category_row user_id organization_id id) d.tracking.categories)

-- The check compares the name as it is.
abbrev pub is_named : ℕ → ℕ → Text → MetricCategory → Bool
is_named user_id organization_id name c =
    c.user_id == user_id
    && c.organization_id == organization_id
    && text_eq c.name name
    && is_kept_category c

abbrev pub category_exists_by_name : ℕ → ℕ → Text → Action Bool
category_exists_by_name user_id organization_id name =
    gets (λ d. any (is_named user_id organization_id name) d.tracking.categories)

abbrev pub folder_icon : Text
folder_icon = 0xd83d ∷ 0xdcc1 ∷ []

pub record CategoryData : Type 0 where
  pub name : Text
  pub color : Option Text
  pub icon : Option Text

abbrev pub created_category : (now id user_id organization_id : ℕ) → CategoryData → MetricCategory
created_category now id user_id organization_id data_ = record {
  id = id;
  user_id = user_id;
  organization_id = organization_id;
  name = data_.name;
  color = get_or_else data_.color default_color;
  icon = get_or_else data_.icon folder_icon;
  created_at = now;
  updated_at = now;
  deleted_at = none;
}

-- A field that is left out keeps its value.
pub record CategoryPatch : Type 0 where
  pub name : Option Text
  pub color : Option Text
  pub icon : Option Text

abbrev pub patched_category : ℕ → CategoryPatch → MetricCategory → MetricCategory
patched_category now patch c = record c {
  name = get_or_else patch.name c.name;
  color = get_or_else patch.color c.color;
  icon = get_or_else patch.icon c.icon;
  updated_at = now;
}

module _ (to_lower_case : Text → Text) where
  abbrev pub category_clashes : MetricCategory → MetricCategory → Bool
  category_clashes c other =
      other.user_id == c.user_id
      && text_eq (to_lower_case other.name) (to_lower_case c.name)
      && is_kept_category other
      && not (other.id == c.id)

  unfoldable pub create_category_row :
      (now id user_id organization_id : ℕ) → CategoryData → Action MetricCategory
  create_category_row now id user_id organization_id data_ = do
    rows ← gets (λ d. d.tracking.categories)
    throw_if (any (category_clashes (created_category now id user_id organization_id data_)) rows)
        unique_violation
    modify_db
        (set_categories (λ cs. cs ++ created_category now id user_id organization_id data_ ∷ []))
    pure (created_category now id user_id organization_id data_)

  unfoldable pub update_category_row :
      (now user_id organization_id id : ℕ) → CategoryPatch → Action MetricCategory
  update_category_row now user_id organization_id id patch = do
    found ← find_category_by_id user_id organization_id id
    row ← or_throw found plain_error
    rows ← gets (λ d. d.tracking.categories)
    throw_if (any (category_clashes (patched_category now patch row)) rows) unique_violation
    modify_db (
        set_categories
          (update_where (is_category_row user_id organization_id id) (patched_category now patch)))
    pure (patched_category now patch row)

-- `destroy` of a paranoid row
abbrev pub delete_category_row : (now user_id organization_id id : ℕ) → Action (Unit {0})
delete_category_row now user_id organization_id id = modify_db (
    set_categories (
      update_where (is_category_row user_id organization_id id)
        (λ c. record c { deleted_at = some now })))
