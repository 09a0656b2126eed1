-- ===== src/Categories/Snapshots.antt =====
-- What CachedMetricCategoryRepository stores: pages as snapshots, under keys. An entry that does not
-- parse as JSON is a missing one, and a Redis that throws is left out.
use lakira_backend.Base.{ℕ, Bool, Option, none, some, List, [], ◌∷◌, map, if◌then◌else◌}
use lakira_backend.Text.{Text, text_eq}
use lakira_backend.Config.Reading.{◌>>=◌}
use lakira_backend.Paging.Window.{Position}
use lakira_backend.Categories.Listing.{SortParam, ListPorts}

-- `to_iso` and `parse_date` are Date's, `decode` is decodeCursor, `id_text` the text of an id.
pub record CachePorts : Type 0 where
  pub to_iso : ℕ → Text
  pub parse_date : Text → Option ℕ
  pub id_text : ℕ → Text
  pub decode : SortParam → Text → Option Position
  pub listing : ListPorts

-- The entity with the count of its metrics, as `toDomain` makes it.
pub record ListedCategory : Type 0 where
  pub id : ℕ
  pub user_id : ℕ
  pub name : Text
  pub color : Text
  pub icon : Text
  pub created_at : ℕ
  pub updated_at : ℕ
  pub deleted_at : Option ℕ
  pub metric_count : ℕ

pub record Listing : Type 0 where
  pub items : List ListedCategory
  pub next : Option Position
  pub limit : ℕ
  pub total_count : Option ℕ

pub data DeletedField : Type 0 where
  null_date no_date : DeletedField
  dated : Text → DeletedField

-- An item of a cached value: each field that is of the snapshot's type, or none.
pub record CachedCategory : Type 0 where
  pub id : Option ℕ
  pub user_id : Option ℕ
  pub name : Option Text
  pub color : Option Text
  pub icon : Option Text
  pub created_at : Option Text
  pub updated_at : Option Text
  pub deleted_at : DeletedField
  pub metric_count : Option ℕ

-- A value without a list of items, or a page.
pub data CachedValue : Type 0 where
  no_page : CachedValue
  cached_page :
      List CachedCategory
      → (next : Option Position) (limit : ℕ) (total_count : Option ℕ) → CachedValue

abbrev pub Entries : Type 0
Entries = List (Text × CachedValue)

unfoldable pub get_entry : Text → Entries → Option CachedValue
get_entry key [] = none
get_entry key ((k, value) ∷ entries) =
    let rest = get_entry key entries in if text_eq k key then some value else rest

-- `setEx`; the newest entry of a key is the one that is read.
unfoldable pub set_entry : Text → CachedValue → Entries → Entries
set_entry key value entries = (key, value) ∷ entries

-- What expires, or is deleted by its key or by a pattern.
unfoldable pub drop_entries : (Text → Bool) → Entries → Entries
drop_entries dropped [] = []
drop_entries dropped ((k, value) ∷ entries) =
    let rest = drop_entries dropped entries in if dropped k then rest else (k, value) ∷ rest

module _ (ports : CachePorts) where
  abbrev pub snapshot_date : Option ℕ → DeletedField
  snapshot_date none = null_date
  snapshot_date (some t) = dated (ports.to_iso t)

  -- An item of `toCache`
  abbrev pub snapshot_of : ListedCategory → CachedCategory
  snapshot_of c = record {
    id = some c.id;
    user_id = some c.user_id;
    name = some c.name;
    color = some c.color;
    icon = some c.icon;
    created_at = some (ports.to_iso c.created_at);
    updated_at = some (ports.to_iso c.updated_at);
    deleted_at = snapshot_date c.deleted_at;
    metric_count = some c.metric_count;
  }

  unfoldable pub to_cache : Listing → CachedValue
  to_cache page = cached_page (map snapshot_of page.items) page.next page.limit page.total_count

  -- `isDateString`, and the date
  abbrev pub read_date : Option Text → Option ℕ
  read_date none = none
  read_date (some s) = ports.parse_date s

  abbrev pub read_deleted : DeletedField → Option (Option ℕ)
  read_deleted null_date = some none
  read_deleted no_date = none
  read_deleted (dated s) = ports.parse_date s >>= λ t. some (some t)

  -- `isCachedCategory`, and the entity that is rebuilt
  unfoldable pub rebuild : CachedCategory → Option ListedCategory
  rebuild c = do
    id ← c.id
    user_id ← c.user_id
    name ← c.name
    color ← c.color
    icon ← c.icon
    created_at ← read_date c.created_at
    updated_at ← read_date c.updated_at
    deleted_at ← read_deleted c.deleted_at
    metric_count ← c.metric_count
    some (record {
      id = id;
      user_id = user_id;
      name = name;
      color = color;
      icon = icon;
      created_at = created_at;
      updated_at = updated_at;
      deleted_at = deleted_at;
      metric_count = metric_count;
    })

  unfoldable pub rebuild_all : List CachedCategory → Option (List ListedCategory)
  rebuild_all [] = some []
  rebuild_all (c ∷ cs) = do item ← rebuild c; items ← rebuild_all cs; some (item ∷ items)

  unfoldable pub from_cache : CachedValue → Option Listing
  from_cache no_page = none
  from_cache (cached_page items next limit total_count) = rebuild_all items >>= λ rebuilt.
      some (record { items = rebuilt; next = next; limit = limit; total_count = total_count })

  abbrev pub cached_at : Text → Entries → Option Listing
  cached_at key entries = get_entry key entries >>= from_cache

  unfoldable pub store_page : Text → Listing → Entries → Entries
  store_page key page entries = set_entry key (to_cache page) entries
