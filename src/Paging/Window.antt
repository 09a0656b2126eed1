-- ===== src/Paging/Window.antt =====
-- One page: the rows after the cursor, ordered by a column and the id, up to one row past the
-- limit, which tells whether another page follows.
use lakira_backend.Base.{
  ℕ, zero, suc, Bool, true, ◌&&◌, ◌||◌, ◌==◌, ltb, Option, none, some, List, [], ◌∷◌, ◌++◌,
  if◌then◌else◌, length, select_where,
}

pub data Dir : Type 0 where
  asc desc : Dir

-- The column's value and the id of the last row of a page.
pub record Position : Type 0 where
  pub value : ℕ
  pub id : ℕ

pub record Page (A : Type 0) : Type 0 where
  pub items : List A
  pub next : Option Position

-- `Op.gt`, or `Op.lt` where the order is descending
abbrev pub beyond : Dir → ℕ → ℕ → Bool
beyond asc a b = ltb b a
beyond desc a b = ltb a b

module _ {A : Type 0} where
  abbrev pub take : ℕ → List A → List A
  take zero xs = []
  take (suc n) [] = []
  take (suc n) (x ∷ xs) = x ∷ take n xs

  abbrev pub last_of : List A → Option A
  last_of [] = none
  last_of (x ∷ []) = some x
  last_of (x ∷ y ∷ xs) = last_of (y ∷ xs)

-- The items that a client reads who follows the cursors from `after` on, at most `fuel` pages.
unfoldable pub read_pages : {A : Type 0} → (Option Position → Page A) → ℕ → Option Position → List A
read_pages page zero after = []
read_pages page (suc fuel) after =
    (page after).items
    ++ elim (page after).next [ none ↦ [] | some c ↦ read_pages page fuel (some c) ]

module _ {A : Type 0} (value id : A → ℕ) (dir : Dir) where
  abbrev pub position_of : A → Position
  position_of a = record { value = value a; id = id a }

  -- The cursor's predicate.
  abbrev pub is_after : Position → A → Bool
  is_after c a = beyond dir (value a) c.value || (value a == c.value && beyond dir (id a) c.id)

  abbrev pub insert : A → List A → List A
  insert a [] = a ∷ []
  insert a (b ∷ bs) = if is_after (position_of a) b then a ∷ b ∷ bs else b ∷ insert a bs

  -- `ORDER BY value dir, id dir`
  abbrev pub order_by : List A → List A
  order_by [] = []
  order_by (a ∷ rest) = insert a (order_by rest)

  abbrev pub fits : Option Position → A → Bool
  fits none a = true
  fits (some c) a = is_after c a

  -- The whole window that a page is cut from.
  unfoldable pub window : Option Position → List A → List A
  window after rows = order_by (select_where (fits after) rows)

  abbrev pub next_of : ℕ → List A → Option A → Option Position
  next_of limit rows none = none
  next_of limit rows (some last) = if ltb limit (length rows) then some (position_of last) else none

  unfoldable pub page_of : ℕ → Option Position → List A → Page A
  page_of limit after table =
      let rows = take (suc limit) (window after table) in
      let items = take limit rows in
      record { items = items; next = next_of limit rows (last_of items) }

  -- Those items, of the pages of this window.
  abbrev pub follow : ℕ → ℕ → Option Position → List A → List A
  follow fuel limit after table = read_pages (λ c. page_of limit c table) fuel after

-- A page whose cursor holds something else of the last row than the column that orders the rows.
module _ {A : Type 0} (value cursor id : A → ℕ) (dir : Dir) where
  unfoldable pub cursor_page : ℕ → Option Position → List A → Page A
  cursor_page limit after table =
      let rows = take (suc limit) (window value id dir after table) in
      let items = take limit rows in
      record { items = items; next = next_of cursor id dir limit rows (last_of items) }
