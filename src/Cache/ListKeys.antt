-- ===== src/Cache/ListKeys.antt =====
-- The keys of the lists of metrics, settings and categories (cache-keys.ts and cache.constants.ts
-- of each feature, and CachedMetricCategoryRepository). A sort and a cursor are
-- texts.
use lakira_backend.Base.{ℕ, ◌++◌, Bool, false, Option, none, some, List, [], ◌∷◌, get_or_else}
use lakira_backend.Text.{Text}
use lakira_backend.Cache.Keys.{SegmentValue, build_cursor_cache_key}

abbrev pub cursor_version : Text
cursor_version = b'4' ∷ []

-- `value ?? ""`
abbrev pub optional_text : Option Text → SegmentValue
optional_text value = SegmentValue.text (get_or_else value [])

abbrev pub optional_flag : Option Bool → SegmentValue
optional_flag none = SegmentValue.missing
optional_flag (some b) = SegmentValue.flag b

abbrev metrics_word : Text
metrics_word = b'm' ∷ b'e' ∷ b't' ∷ b'r' ∷ b'i' ∷ b'c' ∷ b's' ∷ []

abbrev metric_dash : Text
metric_dash = b'm' ∷ b'e' ∷ b't' ∷ b'r' ∷ b'i' ∷ b'c' ∷ b'-' ∷ []

abbrev settings_word : Text
settings_word = b's' ∷ b'e' ∷ b't' ∷ b't' ∷ b'i' ∷ b'n' ∷ b'g' ∷ b's' ∷ []

abbrev categories_word : Text
categories_word = b'c' ∷ b'a' ∷ b't' ∷ b'e' ∷ b'g' ∷ b'o' ∷ b'r' ∷ b'i' ∷ b'e' ∷ b's' ∷ []

abbrev after_word : Text
after_word = b'a' ∷ b'f' ∷ b't' ∷ b'e' ∷ b'r' ∷ []

pub record MetricKeyQuery : Type 0 where
  pub limit : ℕ
  pub sort : Text
  pub q : Option Text
  pub filter_name : Option Text
  pub filter_category_id : Option Text
  pub after : Option Text
  pub include_total : Option Bool

abbrev pub metric_segments : MetricKeyQuery → List (Text × SegmentValue)
metric_segments query =
    (b'l' ∷ [], SegmentValue.number query.limit)
    ∷ (b's' ∷ [], SegmentValue.text query.sort)
    ∷ (b'q' ∷ [], optional_text query.q)
    ∷ (b'f' ∷ b'n' ∷ [], optional_text query.filter_name)
    ∷ (b'f' ∷ b'c' ∷ [], optional_text query.filter_category_id)
    ∷ (after_word, optional_text query.after)
    ∷ (b'i' ∷ b't' ∷ [], optional_flag query.include_total)
    ∷ []

unfoldable pub metrics_cursor_cache_key :
    (user_id organization_id : Text) → MetricKeyQuery → Option Text
metrics_cursor_cache_key user_id organization_id query =
    build_cursor_cache_key metrics_word cursor_version (some user_id) organization_id
      (metric_segments query)

pub record SettingsKeyQuery : Type 0 where
  pub limit : ℕ
  pub sort : Text
  pub q : Option Text
  pub filter_metric_id : Option Text
  pub filter_is_active : Option Bool
  pub after : Option Text
  pub include_total : Option Bool

unfoldable pub metric_settings_cursor_cache_key :
    (user_id organization_id : Text) → SettingsKeyQuery → Option Text
metric_settings_cursor_cache_key user_id organization_id query =
    build_cursor_cache_key (metric_dash ++ settings_word) cursor_version (some user_id)
      organization_id
      ((b'l' ∷ [], SegmentValue.number query.limit)
        ∷ (b's' ∷ [], SegmentValue.text query.sort)
        ∷ (b'q' ∷ [], optional_text query.q)
        ∷ (b'f' ∷ b'm' ∷ [], optional_text query.filter_metric_id)
        ∷ (b'f' ∷ b'a' ∷ [], optional_flag query.filter_is_active)
        ∷ (after_word, optional_text query.after)
        ∷ (b'i' ∷ b't' ∷ [], optional_flag query.include_total)
        ∷ [])

pub record CategoryKeyQuery : Type 0 where
  pub limit : ℕ
  pub sort : Text
  pub q : Option Text
  pub filter_name : Option Text
  pub after : Option Text
  pub include_total : Option Bool

unfoldable pub categories_cursor_cache_key :
    (user_id organization_id : Text) → CategoryKeyQuery → Option Text
categories_cursor_cache_key user_id organization_id query =
    build_cursor_cache_key (metric_dash ++ categories_word) cursor_version (some user_id)
      organization_id
      ((b'l' ∷ [], SegmentValue.number query.limit)
        ∷ (b's' ∷ [], SegmentValue.text query.sort)
        ∷ (b'q' ∷ [], optional_text query.q)
        ∷ (b'f' ∷ b'n' ∷ [], optional_text query.filter_name)
        ∷ (after_word, optional_text query.after)
        ∷ (b'i' ∷ b't' ∷ [], SegmentValue.flag (get_or_else query.include_total false))
        ∷ [])
