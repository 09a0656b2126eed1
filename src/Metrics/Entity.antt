-- ===== src/Metrics/Entity.antt =====
-- The entity Metric (src/features/public/metric/domain/entities/Metric.ts). A setter throws a
-- validation error, or changes the metric and its `updatedAt`.
use lakira_backend.Base.{ℕ, Bool, true, false, ◌||◌, Option, none, some, ltb, if◌then◌else◌}
use lakira_backend.Text.{Text, trim}
use lakira_backend.Store.{Metric, Result, ok, err, domain_error, validation}
use lakira_backend.Settings.Entity.{Patch, unset, set, then_check}
use lakira_backend.Metrics.Texts.{
  Rule, get_unicode_length, has_invalid_metric_chars, metric_name_rule, metric_unit_rule,
  metric_description_max,
}

-- Too short, too long, or with characters that are not allowed.
abbrev pub breaks_rule : Rule → Text → Bool
breaks_rule rule value =
    ltb (get_unicode_length value) rule.low
    || ltb rule.high (get_unicode_length value)
    || has_invalid_metric_chars false value

unfoldable pub rename : ℕ → Text → Metric → Result Metric
rename now next m =
    let value = trim next in
    if breaks_rule metric_name_rule value
    then err (domain_error validation)
    else ok (record m { name = value; updated_at = now })

abbrev pub breaks_description : Option Text → Bool
breaks_description none = false
breaks_description (some next) =
    ltb metric_description_max (get_unicode_length next) || has_invalid_metric_chars true next

unfoldable pub describe : ℕ → Option Text → Metric → Result Metric
describe now next m =
    if breaks_description next
    then err (domain_error validation)
    else ok (record m { description = next; updated_at = now })

unfoldable pub set_default_unit : ℕ → Text → Metric → Result Metric
set_default_unit now unit m =
    let normalized = trim unit in
    if breaks_rule metric_unit_rule normalized
    then err (domain_error validation)
    else ok (record m { default_unit = normalized; updated_at = now })

abbrev pub move_to_category : ℕ → Option ℕ → Metric → Metric
move_to_category now category m = record m { category_id = category; updated_at = now }

abbrev pub set_original_metric : ℕ → Option ℕ → Metric → Metric
set_original_metric now original m = record m { original_metric_id = original; updated_at = now }

abbrev pub toggle_public : ℕ → Bool → Metric → Metric
toggle_public now value m = record m { is_public = value; updated_at = now }

-- What `update` takes.
pub record MetricUpdate : Type 0 where
  pub name : Patch Text
  pub description : Patch (Option Text)
  pub default_unit : Patch Text
  pub category_id : Patch (Option ℕ)
  pub original_metric_id : Patch (Option ℕ)
  pub is_public : Patch Bool

-- `if (data.key !== undefined) this.setter(data.key)`
abbrev pub if_set : {A : Type 0} → Patch A → (A → Metric → Result Metric) → Metric → Result Metric
if_set unset setter m = ok m
if_set (set a) setter m = setter a m

unfoldable pub update_metric_entity : ℕ → MetricUpdate → Metric → Result Metric
update_metric_entity now u m = then_check (if_set u.name (rename now) m) λ named.
    then_check (if_set u.description (describe now) named) λ described.
      then_check (if_set u.default_unit (set_default_unit now) described) λ measured.
        then_check (if_set u.category_id (λ c n. ok (move_to_category now c n)) measured) λ moved.
          then_check (if_set u.original_metric_id (λ o n. ok (set_original_metric now o n)) moved)
            λ cloned. if_set u.is_public (λ b n. ok (toggle_public now b n)) cloned
