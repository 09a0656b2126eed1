-- ===== src/Categories/ListedRows.antt =====
-- Each row of a page is one that its query selects.
use lakira_backend.Base.{
  ℕ, zero, suc, ◌≡◌, refl, ◌∙◌, Bool, true, Option, List, [], ◌∷◌, ◌==◌, map, all, arith,
  select_where,
}
use lakira_backend.Text.{Text}
use lakira_backend.Store.{MetricCategory, Metric}
use lakira_backend.Paging.Window.{Dir, Position, take, insert, order_by, fits, window, cursor_page}
use lakira_backend.Categories.Listing.{
  ListQuery, build_where, sort_value, cursor_value, category_key, clamp_limit, list_categories,
}
use lakira_backend.Categories.Snapshots.{CachePorts}
use lakira_backend.Categories.Cached.{inner_list, listed_category}
use lakira_backend.Config.Reading.{◌>>=◌}

module _ {A : Type 0} (p : A → Bool) where
  all-select_where :
      (q : A → Bool) (xs : List A) → all p xs ≡ true → all p (select_where q xs) ≡ true
  all-select_where q [] h = refl
  all-select_where q (x ∷ xs) h = ground (arith, all-select_where q xs)

  all-take : (n : ℕ) (xs : List A) → all p xs ≡ true → all p (take n xs) ≡ true
  all-take zero xs h = refl
  all-take (suc n) [] h = refl
  all-take (suc n) (x ∷ xs) h = ground (arith, all-take n xs)

  module _ (value id : A → ℕ) (dir : Dir) where
    all-insert :
        (x : A) (xs : List A)
        → p x ≡ true
        → all p xs ≡ true
        → all p (insert value id dir x xs) ≡ true
    all-insert x [] h hs = ground arith
    all-insert x (y ∷ ys) h hs = ground (arith, all-insert x ys h)

    all-order_by : (xs : List A) → all p xs ≡ true → all p (order_by value id dir xs) ≡ true
    all-order_by [] h = refl
    all-order_by (x ∷ xs) h =
        ground (arith, all-order_by xs, all-insert x (order_by value id dir xs))

    pub all-cursor_page :
        (cursor : A → ℕ) (limit : ℕ) (after : Option Position) (rows : List A)
        → all p rows ≡ true
        → all p (cursor_page value cursor id dir limit after rows).items ≡ true
    unfolding cursor_page window
    all-cursor_page cursor limit after rows h =
        all-take limit (take (suc limit) (window value id dir after rows)) (
          all-take (suc limit) (window value id dir after rows) (
            all-order_by (select_where (fits value id dir after) rows)
              (all-select_where (fits value id dir after) rows h)))

selected :
    {A : Type 0}
    → (p q : A → Bool) → ((x : A) → p x ≡ true → q x ≡ true)
    → (xs : List A) → all q (select_where p xs) ≡ true
selected p q h [] = refl
selected p q h (x ∷ xs) = ground (arith, h x, selected p q h xs)

all-map :
    {A B : Type 0}
    → (f : A → B) (p : B → Bool) (xs : List A) → all p (map f xs) ≡ all (λ x. p (f x)) xs
all-map f p [] = refl
all-map f p (x ∷ xs) = ground (arith, all-map f p xs)

module _ (ports : CachePorts) where
  pub inner_list_user :
      (query : ListQuery) (after : Option Text) (db : List Metric × List MetricCategory)
      → all (λ c. c.user_id == query.user_id) (inner_list ports query after db).items ≡ true
  unfolding inner_list list_categories
  inner_list_user query after (metrics, rows) =
      let cursor = after >>= ports.decode query.sort in
      let found = list_categories ports.listing metrics query cursor rows in
      all-map (listed_category ports metrics) (λ c. c.user_id == query.user_id) found.page.items
      ∙ all-cursor_page (λ (c : MetricCategory). c.user_id == query.user_id)
          (sort_value ports.listing metrics query.sort.field) category_key query.sort.dir
          (cursor_value ports.listing metrics query.sort.field) (clamp_limit query.limit) cursor
          (select_where (build_where ports.listing query) rows)
          (selected (build_where ports.listing query)
            (λ (c : MetricCategory). c.user_id == query.user_id) (λ c h. ground arith) rows)
