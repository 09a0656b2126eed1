-- ===== src/Categories/Cached.antt =====
-- `list` of CachedMetricCategoryRepository, with its key; what an answer repeats of its query is left
-- out.
use lakira_backend.Base.{Bool, Option, none, some, List, ◌∷◌, map, if◌then◌else◌}
use lakira_backend.Text.{Text, codes}
use lakira_backend.Store.{Metric, MetricCategory}
use lakira_backend.Config.Reading.{◌>>=◌}
use lakira_backend.Paging.Window.{Dir}
use lakira_backend.Cache.ListKeys.{CategoryKeyQuery, categories_cursor_cache_key}
use lakira_backend.Categories.Listing.{
  SortField, SortParam, ListQuery, list_categories, metric_count_of,
}
use lakira_backend.Categories.Snapshots.{
  CachePorts, ListedCategory, Listing, Entries, cached_at, store_page,
}

abbrev pub field_text : SortField → Text
field_text SortField.created_at = codes "createdAt"
field_text SortField.updated_at = codes "updatedAt"
field_text SortField.name = codes "name"
field_text SortField.metric_count = codes "metricCount"

abbrev pub sort_text : SortParam → Text
sort_text sort = elim sort.dir [
  | Dir.asc ↦ field_text sort.field
  | Dir.desc ↦ b'-' ∷ field_text sort.field
]

module _ (ports : CachePorts) where
  -- What the database holds for a listing.
  abbrev pub Tracked : Type 0
  Tracked = List Metric × List MetricCategory

  abbrev pub listed_category : List Metric → MetricCategory → ListedCategory
  listed_category metrics c = record {
    id = c.id;
    user_id = c.user_id;
    name = c.name;
    color = c.color;
    icon = c.icon;
    created_at = c.created_at;
    updated_at = c.updated_at;
    deleted_at = c.deleted_at;
    metric_count = metric_count_of metrics c;
  }

  -- `this.inner.list(q)`; a cursor is a text.
  unfoldable pub inner_list : ListQuery → Option Text → Tracked → Listing
  inner_list query after (metrics, rows) =
      let found =
        list_categories ports.listing metrics query (after >>= ports.decode query.sort) rows in
      record {
        items = map (listed_category metrics) found.page.items;
        next = found.page.next;
        limit = found.limit;
        total_count = found.total_count;
      }

  abbrev pub key_query : ListQuery → Option Text → CategoryKeyQuery
  key_query query after = record {
    limit = query.limit;
    sort = sort_text query.sort;
    q = query.q;
    filter_name = query.filter_name;
    after = after;
    include_total = some query.include_total;
  }

  unfoldable pub list_key : ListQuery → Option Text → Option Text
  list_key query after =
      categories_cursor_cache_key (ports.id_text query.user_id)
        (ports.id_text query.organization_id) (key_query query after)

  -- A hit, or the repository's page and what is kept of it.
  abbrev pub answer_of : Option Listing → Listing → (kept entries : Entries) → Listing × Entries
  answer_of none page kept entries = (page, kept)
  answer_of (some hit) page kept entries = (hit, entries)

  -- `list`, with the answers of the two calls of `isEnabled`; a key that throws gives nothing.
  unfoldable pub cached_list :
      (enabled enabled_after : Bool)
      → ListQuery
      → Option Text
      → Tracked
      → Entries
      → Option (Listing × Entries)
  cached_list enabled enabled_after query after tracked entries = list_key query after >>= λ key.
      let page = inner_list query after tracked in
      some (
        answer_of (if enabled then cached_at ports key entries else none) page
          (if enabled_after then store_page ports key page entries else entries) entries)
