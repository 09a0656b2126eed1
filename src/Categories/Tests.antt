-- ===== src/Categories/Tests.antt =====
-- The theorems on listings and their cache, and the value objects, at small inputs.
use lakira_backend.Base.{
  ℕ, zero, suc, ◌≡◌, refl, ap, inl, Bool, true, false, Option, none, some, [], ◌∷◌, ◌==◌, all,
  arith, if◌then◌else◌,
}
use lakira_backend.Text.{Text, codes, trim, trim_start, text_eq}
use lakira_backend.Messaging.RetryPolicy.{print_count, digits}
use lakira_backend.Cache.Keys.{
  build_cursor_cache_key, normalize_segment_value, cursor_cache_namespace, encode_segment_text,
  encode_uri_component, encode_unit, escape_rest, join_segments, dash_spaces,
}
use lakira_backend.Cache.ListKeys.{categories_cursor_cache_key}
use lakira_backend.Cache.PlainIds.{IsPlain}
use lakira_backend.Store.{MetricCategory, ok, err, plain_error}
use lakira_backend.Paging.Window.{Position, desc, cursor_page, window, read_pages}
use lakira_backend.Metrics.UseCases.{default_color}
use lakira_backend.Categories.Values.{is_hex_color, category_color, category_icon}
use lakira_backend.Categories.Table.{created_category, folder_icon}
use lakira_backend.Categories.Listing.{
  SortField, SortParam, ListPorts, ListQuery, list_categories, listed, read_pages-list_categories,
}
use lakira_backend.Categories.Snapshots.{
  CachePorts, Listing, Entries, get_entry, set_entry, to_cache, from_cache, rebuild, rebuild_all,
  store_page,
}
use lakira_backend.Categories.Cached.{inner_list, list_key, cached_list}
use lakira_backend.Categories.CachedLists.{cached_list_isolates}
use lakira_backend.Categories.CacheHistory.{Db, IsAmong, History, started, written, stored}

-- A creation without a colour fails, since the fallback is none.
no_color : category_color none ≡ err plain_error
unfolding category_color is_hex_color
no_color = refl

some_color : category_color (some default_color) ≡ ok default_color
unfolding category_color is_hex_color trim trim_start
some_color = refl

no_icon : category_icon none ≡ ok folder_icon
unfolding category_icon
no_icon = refl

abbrev named : ℕ → ℕ → ℕ → MetricCategory
named id now c = created_category now id 1 9 (record { name = c ∷ []; color = none; icon = none })

-- The newest first, in pages of one; two were made at the same time.
abbrev newest : ListQuery
newest = record {
  user_id = 1;
  organization_id = 9;
  limit = 1;
  sort = record { field = SortField.created_at; dir = desc };
  q = none;
  filter_name = none;
  include_total = false;
}

abbrev always : Text → Text → Bool
always a b = true

abbrev first_unit : Text → ℕ
first_unit [] = 0
first_unit (c ∷ _) = c

abbrev unchanged : Text → Text
unchanged s = s

abbrev list_ports : ListPorts
list_ports = record {
  i_like = always;
  rank = first_unit;
  sql_lower = unchanged;
  to_lower_case = unchanged;
  created_micros = λ id. 0;
  updated_micros = λ id. if id == 2 then 400 else 0;
}

read_pages-list_categories_example :
    read_pages
      (λ after.
        (list_categories list_ports [] newest after
          (named 1 5 b'a' ∷ named 2 6 b'b' ∷ named 3 5 b'c' ∷ [])).page)
      4
      none
    ≡ named 2 6 b'b' ∷ named 3 5 b'c' ∷ named 1 5 b'a' ∷ []
unfolding listed
read_pages-list_categories_example =
    read_pages-list_categories list_ports [] newest 4
      (named 1 5 b'a' ∷ named 2 6 b'b' ∷ named 3 5 b'c' ∷ []) (refl, (refl, (refl, tt)))
      (refl, (refl, (refl, tt))) (omega arith)

-- A date is printed as one unit, and an id in unary.
abbrev iso : ℕ → Text
iso t = t ∷ []

abbrev parse : Text → Option ℕ
parse (t ∷ []) = some t
parse _ = none

unfoldable unary : ℕ → Text
unary zero = b'a' ∷ []
unary (suc n) = b'a' ∷ unary n

unary-IsPlain : (n : ℕ) → IsPlain (unary n)
unfolding unary
unary-IsPlain zero = (refl, refl)
unary-IsPlain (suc n) = let (h, p) = unary-IsPlain n in (refl, ground (arith, p))

unary_apart : (n m : ℕ) → unary n ≡ unary m → n ≡ m
unfolding unary
unary_apart zero zero e = refl
unary_apart zero (suc m) e = absurd (ground (arith, unary-IsPlain m))
unary_apart (suc n) zero e = absurd (ground (arith, unary-IsPlain n))
unary_apart (suc n) (suc m) e = ap suc (unary_apart n m cc)

abbrev no_cursor : SortParam → Text → Option Position
no_cursor sort s = none

abbrev ports : CachePorts
ports = record {
  to_iso = iso;
  parse_date = parse;
  id_text = unary;
  decode = no_cursor;
  listing = list_ports;
}

abbrev full : Db
full = ([], named 1 5 b'a' ∷ named 2 6 b'b' ∷ named 3 5 b'c' ∷ [])

abbrev emptied : Db
emptied = ([], [])

abbrev newest_key : Text
newest_key =
    codes "cursor:metric-categories:v4:aa:org:aaaaaaaaaa:l:1:s:-createdAt:q:_:fn:_:after:_:it:0"

newest_key_lem : list_key ports newest none ≡ some newest_key
unfolding list_key categories_cursor_cache_key build_cursor_cache_key unary normalize_segment_value
    cursor_cache_namespace encode_segment_text encode_uri_component encode_unit escape_rest
    join_segments dash_spaces trim trim_start print_count digits
newest_key_lem = refl

abbrev first_page : Listing
first_page = inner_list ports newest none full

abbrev kept_page : Entries
kept_page = store_page ports newest_key first_page []

-- The page is listed again after the rows have gone, before the entry is dropped.
abbrev history : History ports (emptied ∷ full ∷ []) kept_page
history =
    written (stored (started full) newest none full newest_key (inl refl) newest_key_lem) emptied

hit_run : cached_list ports true true newest none emptied kept_page ≡ some (first_page, kept_page)
unfolding cached_list list_key categories_cursor_cache_key build_cursor_cache_key unary
    normalize_segment_value cursor_cache_namespace encode_segment_text encode_uri_component
    encode_unit escape_rest join_segments dash_spaces trim trim_start print_count digits get_entry
    set_entry store_page to_cache from_cache rebuild rebuild_all text_eq inner_list list_categories
    cursor_page window
hit_run = refl

cached_list_isolates_example :
    (asked : ListQuery) × (after : Option Text) × (db : Db) × IsAmong db (emptied ∷ full ∷ [])
    × (asked.user_id ≡ 1)
    × (asked.organization_id ≡ 9)
    × (list_key ports asked after ≡ list_key ports newest none)
    × (first_page ≡ inner_list ports asked after db)
    × (all (λ c. c.user_id == 1) first_page.items ≡ true)
    × History ports (emptied ∷ full ∷ []) kept_page
cached_list_isolates_example =
    cached_list_isolates ports true true (emptied ∷ full ∷ []) newest none emptied kept_page
      kept_page first_page (λ t. refl) unary-IsPlain unary_apart history (inl refl) hit_run
