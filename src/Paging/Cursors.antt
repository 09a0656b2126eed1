-- ===== src/Paging/Cursors.antt =====
-- Pages whose cursors hold the column that orders the rows, for each row there is.
use lakira_backend.Base.{
  ℕ, zero, suc, ◌≤◌, ◌<◌, ◌≡◌, refl, subst, ap, ◌∙◌, Bool, Option, none, some, List, [], ◌∷◌, All,
  length, select_where, IsKeyed, Bool-cases, Option-cases, inl, inr,
}
use mathlib.Core.Path.{fun_ext}
use lakira_backend.Paging.Window.{
  Dir, Position, Page, is_after, position_of, take, last_of, insert, order_by, fits, window,
  read_pages, next_of, page_of, cursor_page,
}
use lakira_backend.Paging.Following.{follow_all}

module _ {A : Type 0} (P : A → Type 0) where
  pub All-select : (q : A → Bool) (xs : List A) → All P xs → All P (select_where q xs)
  All-select q [] h = tt
  All-select q (x ∷ xs) (h, hs) = elim (Bool-cases (q x)) [
    | inl kept ↦ rw kept (h, All-select q xs hs)
    | inr gone ↦ rw gone (All-select q xs hs)
  ]

  All-take : (n : ℕ) (xs : List A) → All P xs → All P (take n xs)
  All-take zero xs h = tt
  All-take (suc n) [] h = tt
  All-take (suc n) (x ∷ xs) (h, hs) = (h, All-take n xs hs)

  -- Either there is no last item, or it has the property.
  All-last : (xs : List A) → All P xs → (x : A) → last_of xs ≡ some x → P x
  All-last [] h x e = absurd cc
  All-last (y ∷ []) (h, hs) x e = subst P (cc) h
  All-last (y ∷ z ∷ xs) (h, hs) x e = All-last (z ∷ xs) hs x e

  module _ (value id : A → ℕ) (dir : Dir) where
    All-insert : (x : A) (xs : List A) → P x → All P xs → All P (insert value id dir x xs)
    All-insert x [] h hs = (h, tt)
    All-insert x (y ∷ ys) h (k, hs) =
        elim (Bool-cases (is_after value id dir (position_of value id dir x) y)) [
          | inl before ↦ rw before (h, (k, hs))
          | inr later ↦ rw later (k, All-insert x ys h hs)
        ]

    All-order_by : (xs : List A) → All P xs → All P (order_by value id dir xs)
    All-order_by [] h = tt
    All-order_by (x ∷ xs) (h, hs) = All-insert x (order_by value id dir xs) h (All-order_by xs hs)

read_pages_ext :
    {A : Type 0} (f g : Option Position → Page A)
    → ((after : Option Position) → f after ≡ g after)
    → (fuel : ℕ) (after : Option Position) → read_pages f fuel after ≡ read_pages g fuel after
read_pages_ext f g same fuel after = ap (λ h. read_pages h fuel after) (fun_ext same)

module _ {A : Type 0} (value cursor id : A → ℕ) (dir : Dir) (table : List A)
    (exact : All (λ a. cursor a ≡ value a) table) where
  next_of_exact :
      (limit : ℕ) (rows items : List A)
      → All (λ a. cursor a ≡ value a) items
      → next_of cursor id dir limit rows (last_of items)
        ≡ next_of value id dir limit rows (last_of items)
  next_of_exact limit rows items h = elim (Option-cases (last_of items)) [
    | inl empty ↦ rw empty refl
    | inr (x, found) ↦ rw found (rw (All-last (λ a. cursor a ≡ value a) items h x found) refl)
  ]

  cursor_page-page_of :
      (limit : ℕ) (after : Option Position)
      → cursor_page value cursor id dir limit after table ≡ page_of value id dir limit after table
  unfolding cursor_page page_of window
  cursor_page-page_of limit after =
      let E = λ (a : A). cursor a ≡ value a in
      let all = order_by value id dir (select_where (fits value id dir after) table) in
      let items = take limit (take (suc limit) all) in
      let kept : All E items = All-take E limit (take (suc limit) all) (
        All-take E (suc limit) all (
          All-order_by E value id dir (select_where (fits value id dir after) table)
            (All-select E (fits value id dir after) table exact))) in
      ap (λ n. record { items = items; next = n })
        (next_of_exact limit (take (suc limit) all) items kept)

  -- Following such cursors reads every row once, in order.
  pub follow_exact :
      IsKeyed id table
      → (fuel limit : ℕ) → 1 ≤ limit
      → length (order_by value id dir table) < fuel
      → read_pages (λ after. cursor_page value cursor id dir limit after table) fuel none
        ≡ order_by value id dir table
  follow_exact keyed fuel limit l f =
      read_pages_ext (λ after. cursor_page value cursor id dir limit after table)
        (λ after. page_of value id dir limit after table) (cursor_page-page_of limit) fuel none
      ∙ follow_all value id dir table keyed fuel limit l f
