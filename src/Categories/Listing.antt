-- ===== src/Categories/Listing.antt =====
-- `list` of MetricCategoryRepoSequelize. A cursor is what its text decodes to.
use lakira_backend.Base.{
  ℕ, ◌+◌, ◌*◌, ◌<◌, ◌≡◌, refl, ap, [], ◌∷◌, All, min, max, Bool, true, false, ◌&&◌, Option, none,
  some, List, length, arith, ◌==◌, if◌then◌else◌, select_where, count_where, IsKeyed,
}
use lakira_backend.Text.{Text, is_empty}
use lakira_backend.Store.{Metric, MetricCategory}
use lakira_backend.Metrics.Table.{is_kept_metric}
use lakira_backend.Categories.Table.{is_kept_category}
use lakira_backend.Paging.Window.{Dir, Position, Page, cursor_page, order_by, read_pages}
use lakira_backend.Paging.Following.{select_where-IsKeyed}
use lakira_backend.Paging.Cursors.{All-select, follow_exact}

pub data SortField : Type 0 where
  created_at updated_at name metric_count : SortField

pub record SortParam : Type 0 where
  pub field : SortField
  pub dir : Dir

pub record ListQuery : Type 0 where
  pub user_id : ℕ
  pub organization_id : ℕ
  pub limit : ℕ
  pub sort : SortParam
  pub q : Option Text
  pub filter_name : Option Text
  pub include_total : Bool

pub record ListResult : Type 0 where
  pub page : Page MetricCategory
  pub limit : ℕ
  pub total_count : Option ℕ

-- `Math.min(Math.max(limit || 20, 1), 100)`
abbrev pub clamp_limit : ℕ → ℕ
clamp_limit limit = min (max (if limit == 0 then 20 else limit) 1) 100

abbrev pub category_key : MetricCategory → ℕ
category_key c = c.id

-- METRIC_COUNT_SQL
abbrev pub is_in_category : ℕ → Metric → Bool
is_in_category id m = is_kept_metric m && has_category id m.category_id
  where
    has_category : ℕ → Option ℕ → Bool
    has_category id none = false
    has_category id (some c) = c == id

abbrev pub metric_count_of : List Metric → MetricCategory → ℕ
metric_count_of metrics c = count_where (is_in_category c.id) metrics

-- `i_like` and `sql_lower` are the database's ILIKE and LOWER, `rank` the place of a text in its
-- order, and `to_lower_case` is JavaScript's. The micros of a row are what its timestamps have past
-- the millisecond, which a Date does not keep.
pub record ListPorts : Type 0 where
  pub i_like : Text → Text → Bool
  pub rank : Text → ℕ
  pub sql_lower : Text → Text
  pub to_lower_case : Text → Text
  pub created_micros : ℕ → ℕ
  pub updated_micros : ℕ → ℕ

module _ (db : ListPorts) where
  -- A condition that is there where its text is not empty.
  abbrev pub like : Option Text → Text → Bool
  like none s = true
  like (some v) s = if is_empty v then true else db.i_like v s

  -- `buildWhere`
  abbrev pub build_where : ListQuery → MetricCategory → Bool
  build_where query c =
      c.user_id == query.user_id
      && c.organization_id == query.organization_id
      && is_kept_category c
      && like query.q c.name
      && like query.filter_name c.name

  -- The column that a sort orders by, timestamps in microseconds.
  abbrev pub sort_value : List Metric → SortField → MetricCategory → ℕ
  sort_value metrics SortField.created_at c = c.created_at * 1000 + db.created_micros c.id
  sort_value metrics SortField.updated_at c = c.updated_at * 1000 + db.updated_micros c.id
  sort_value metrics SortField.name c = db.rank (db.sql_lower c.name)
  sort_value metrics SortField.metric_count c = metric_count_of metrics c

  -- What the cursor after an item holds of that column.
  abbrev pub cursor_value : List Metric → SortField → MetricCategory → ℕ
  cursor_value metrics SortField.created_at c = c.created_at * 1000
  cursor_value metrics SortField.updated_at c = c.updated_at * 1000
  cursor_value metrics SortField.name c = db.rank (db.to_lower_case c.name)
  cursor_value metrics SortField.metric_count c = metric_count_of metrics c

  -- A cursor of another sort is passed over, as one that does not decode is: `after` is the
  -- position of one of this sort.
  unfoldable pub list_categories :
      List Metric → ListQuery → Option Position → List MetricCategory → ListResult
  list_categories metrics query after rows = record {
    page =
        cursor_page (sort_value metrics query.sort.field) (cursor_value metrics query.sort.field)
          category_key query.sort.dir (clamp_limit query.limit) after
          (select_where (build_where query) rows);
    limit = clamp_limit query.limit;
    total_count = if query.include_total then some (count_where (build_where query) rows) else none;
  }

  -- All that a query selects, in its order.
  unfoldable pub listed : List Metric → ListQuery → List MetricCategory → List MetricCategory
  listed metrics query rows =
      order_by (sort_value metrics query.sort.field) category_key query.sort.dir
        (select_where (build_where query) rows)

  -- The cursor after a row holds its column as it is: the row's timestamp has no microseconds, or
  -- JavaScript and the database agree on the lower case of its name.
  abbrev pub HasExactCursor : SortField → MetricCategory → Type 0
  HasExactCursor SortField.created_at c = db.created_micros c.id ≡ 0
  HasExactCursor SortField.updated_at c = db.updated_micros c.id ≡ 0
  HasExactCursor SortField.name c = db.to_lower_case c.name ≡ db.sql_lower c.name
  HasExactCursor SortField.metric_count c = Unit

  cursor_value-HasExactCursor :
      (metrics : List Metric) (field : SortField) (c : MetricCategory)
      → HasExactCursor field c
      → cursor_value metrics field c ≡ sort_value metrics field c
  cursor_value-HasExactCursor metrics SortField.created_at c h = omega (arith, h)
  cursor_value-HasExactCursor metrics SortField.updated_at c h = omega (arith, h)
  cursor_value-HasExactCursor metrics SortField.name c h = ap db.rank h
  cursor_value-HasExactCursor metrics SortField.metric_count c h = refl

  exact_values :
      (metrics : List Metric) (field : SortField) (rows : List MetricCategory)
      → All (HasExactCursor field) rows
      → All (λ c. cursor_value metrics field c ≡ sort_value metrics field c) rows
  exact_values metrics field [] h = tt
  exact_values metrics field (c ∷ rows) (h, hs) =
      (cursor_value-HasExactCursor metrics field c h, exact_values metrics field rows hs)

  -- Who follows the cursors of a query from its first page on, over rows with distinct ids that do
  -- not change meanwhile, reads each category that it selects once, in its order, whatever limit it
  -- gives. For each row the cursor holds the column exactly: under a sort by a date the row has no
  -- microseconds, and under one by name both lower cases of the name agree.
  pub read_pages-list_categories :
      (metrics : List Metric) (query : ListQuery) (fuel : ℕ) (rows : List MetricCategory)
      → IsKeyed category_key rows
      → All (HasExactCursor query.sort.field) rows
      → length (listed metrics query rows) < fuel
      → read_pages (λ after. (list_categories metrics query after rows).page) fuel none
        ≡ listed metrics query rows
  unfolding list_categories listed
  read_pages-list_categories metrics query fuel rows keyed exact enough =
      let field = query.sort.field in
      let own = select_where (build_where query) rows in
      follow_exact (sort_value metrics field) (cursor_value metrics field) category_key
        query.sort.dir own
        (All-select (λ c. cursor_value metrics field c ≡ sort_value metrics field c)
          (build_where query) rows (exact_values metrics field rows exact))
        (select_where-IsKeyed category_key (build_where query) rows keyed) fuel
        (clamp_limit query.limit) (ground arith) enough
