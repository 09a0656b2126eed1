-- ===== src/Paging/Following.antt =====
-- Following the cursors of a listing reads it all.
use lakira_backend.Base.{
  ℕ, zero, suc, ◌+◌, ◌≤◌, ◌<◌, ◌≡◌, refl, sym, subst, ap, ◌∙◌, Bool, true, false, Option, none,
  some, List, [], ◌∷◌, ◌++◌, arith, inl, inr, length, count_where, select_where, find_key, IsKeyed,
  Bool-cases, ltb,
}
use lakira_backend.Paging.Window.{
  Dir, Position, is_after, position_of, insert, order_by, window, page_of, follow, take, last_of,
  read_pages, next_of,
}
use lakira_backend.Paging.Order.{Ordered, order_by-Ordered, order_by-select_where, select_after}
use mathlib.Core.List.{append-nil, append_assoc}

module _ {A : Type 0} where
  drop : ℕ → List A → List A
  drop zero xs = xs
  drop (suc n) [] = []
  drop (suc n) (x ∷ xs) = drop n xs

  take-drop : (n : ℕ) (xs : List A) → take n xs ++ drop n xs ≡ xs
  unfolding drop
  take-drop zero xs = refl
  take-drop (suc n) [] = refl
  take-drop (suc n) (x ∷ xs) = ap (λ l. x ∷ l) (take-drop n xs)

  take-take : (n : ℕ) (xs : List A) → take n (take (suc n) xs) ≡ take n xs
  take-take zero xs = refl
  take-take (suc n) [] = refl
  take-take (suc n) (x ∷ xs) = ap (λ l. x ∷ l) (take-take n xs)

  take_all : (n : ℕ) (xs : List A) → length xs ≤ n → take n xs ≡ xs
  take_all zero [] h = refl
  take_all zero (x ∷ xs) h = absurd (omega arith)
  take_all (suc n) [] h = refl
  take_all (suc n) (x ∷ xs) h = ap (λ l. x ∷ l) (take_all n xs (omega arith))

  is_longer : (n : ℕ) (xs : List A) → ltb n (length (take (suc n) xs)) ≡ ltb n (length xs)
  is_longer zero [] = refl
  is_longer zero (x ∷ xs) = ground arith
  is_longer (suc n) [] = ground arith
  is_longer (suc n) (x ∷ xs) = ground (arith, is_longer n xs)

  length-drop : (n : ℕ) (xs : List A) → n ≤ length xs → length (drop n xs) + n ≡ length xs
  unfolding drop
  length-drop zero xs h = omega arith
  length-drop (suc n) [] h = omega arith
  length-drop (suc n) (x ∷ xs) h = omega (arith, length-drop n xs (omega arith))

  select_true : (xs : List A) → select_where (λ _. true) xs ≡ xs
  select_true [] = refl
  select_true (x ∷ xs) = ap (λ l. x ∷ l) (select_true xs)

  last_parts :
      (x : A) (xs : List A)
      → (init : List A) × (last : A) × (x ∷ xs ≡ init ++ last ∷ []) × (last_of (x ∷ xs) ≡ some last)
  last_parts x [] = ([], x, refl, refl)
  last_parts x (y ∷ xs) =
      let (init, last, e, f) = last_parts y xs in (x ∷ init, last, ap (λ l. x ∷ l) e, f)

module _ {A : Type 0} (value id : A → ℕ) (dir : Dir) (table : List A)
    (keyed : IsKeyed id table) where
  all_rows : List A
  all_rows = order_by value id dir table

  window_after :
      (xs : List A) (a : A) (ys : List A)
      → all_rows ≡ xs ++ a ∷ ys
      → window value id dir (some (position_of value id dir a)) table ≡ ys
  unfolding window all_rows
  window_after xs a ys e =
      order_by-select_where value id dir (is_after value id dir (position_of value id dir a)) table
        keyed
      ∙ ap (select_where (is_after value id dir (position_of value id dir a))) e
      ∙ select_after value id dir xs a ys
          (subst (Ordered value id dir) e (order_by-Ordered value id dir table keyed))

  next_of_short :
      (limit : ℕ) (rows : List A) (o : Option A)
      → ltb limit (length rows) ≡ false
      → next_of value id dir limit rows o ≡ none
  next_of_short limit rows none h = refl
  next_of_short limit rows (some last) h = rw h refl

  module _ (limit : ℕ) (after : Option Position) (ys : List A)
      (w : window value id dir after table ≡ ys) where
    page_items : (page_of value id dir limit after table).items ≡ take limit ys
    unfolding page_of
    page_items = ap (λ l. take limit (take (suc limit) l)) w ∙ take-take limit ys

    page_next :
        (page_of value id dir limit after table).next
        ≡ next_of value id dir limit (take (suc limit) ys) (last_of (take limit ys))
    unfolding page_of
    page_next =
        ap
          (λ l.
            next_of value id dir limit (take (suc limit) l)
              (last_of (take limit (take (suc limit) l))))
          w
        ∙ ap (λ l. next_of value id dir limit (take (suc limit) ys) (last_of l))
            (take-take limit ys)

    follow_last :
        (fuel : ℕ)
        → ltb limit (length ys) ≡ false
        → follow value id dir (suc fuel) limit after table ≡ ys
    unfolding read_pages
    follow_last fuel short =
        let next =
          page_next
          ∙ next_of_short limit (take (suc limit) ys) (last_of (take limit ys))
              (is_longer limit ys ∙ short) in
        let items = page_items ∙ take_all limit ys (ground arith) in
        rw items (rw next (append-nil ys))

    follow_more :
        (fuel : ℕ) (last : A)
        → ltb limit (length ys) ≡ true
        → last_of (take limit ys) ≡ some last
        → follow value id dir (suc fuel) limit after table
          ≡ take limit ys
            ++ follow value id dir fuel limit (some (position_of value id dir last)) table
    unfolding read_pages
    follow_more fuel last long found =
        let longer = is_longer limit ys ∙ long in
        let next : (page_of value id dir limit after table).next
            ≡ some (position_of value id dir last) =
          page_next ∙ rw found (rw longer refl) in
        rw page_items (rw next refl)

  last_taken :
      (limit : ℕ) (ys : List A)
      → 1 ≤ limit
      → ltb limit (length ys) ≡ true
      → (init : List A) × (last : A) × (take limit ys ≡ init ++ last ∷ [])
        × (last_of (take limit ys) ≡ some last)
  last_taken zero ys l h = absurd (omega arith)
  last_taken (suc n) [] l h = absurd (ground arith)
  last_taken (suc n) (y ∷ ys) l h = last_parts y (take n ys)

  follow_from :
      (fuel limit : ℕ) (after : Option Position) (xs ys : List A)
      → 1 ≤ limit
      → all_rows ≡ xs ++ ys
      → window value id dir after table ≡ ys
      → length ys < fuel
      → follow value id dir fuel limit after table ≡ ys
  follow_from zero limit after xs ys l e w f = absurd (omega arith)
  follow_from (suc fuel) limit after xs ys l e w f = elim (Bool-cases (ltb limit (length ys))) [
    | inr short ↦ follow_last limit after ys w fuel short
    | inl long ↦
        let (init, last, shape, found) = last_taken limit ys l long in
        let cut : ys ≡ (init ++ last ∷ []) ++ drop limit ys =
          sym (take-drop limit ys) ∙ ap (λ t. t ++ drop limit ys) shape in
        let whole : all_rows ≡ (xs ++ init) ++ last ∷ drop limit ys =
          e
          ∙ ap (λ t. xs ++ t) (cut ∙ append_assoc init (last ∷ []) (drop limit ys))
          ∙ sym (append_assoc xs init (last ∷ drop limit ys)) in
        let whole' : all_rows ≡ (xs ++ init ++ last ∷ []) ++ drop limit ys =
          whole ∙ sym (append_assoc (xs ++ init) (last ∷ []) (drop limit ys)) in
        let shorter = length-drop limit ys (ground arith) in
        follow_more limit after ys w fuel last long found
        ∙ ap (λ t. take limit ys ++ t)
            (follow_from fuel limit (some (position_of value id dir last)) (xs ++ init ++ last ∷ [])
              (drop limit ys) l whole' (window_after (xs ++ init) last (drop limit ys) whole)
              (omega arith))
        ∙ take-drop limit ys
  ]

  window_first : window value id dir none table ≡ all_rows
  unfolding window all_rows
  window_first = ap (order_by value id dir) (select_true table)

  -- Who follows the cursors of a listing from its first page on reads each row once, in order.
  pub follow_all :
      (fuel limit : ℕ)
      → 1 ≤ limit
      → length (order_by value id dir table) < fuel
      → follow value id dir fuel limit none table ≡ order_by value id dir table
  unfolding all_rows
  follow_all fuel limit l f = follow_from fuel limit none [] all_rows l refl window_first f

module _ {A : Type 0} (value id : A → ℕ) (dir : Dir) where
  length-insert : (a : A) (bs : List A) → length (insert value id dir a bs) ≡ suc (length bs)
  length-insert a [] = refl
  length-insert a (b ∷ bs) = ground (arith, length-insert a bs)

  pub length-order_by : (bs : List A) → length (order_by value id dir bs) ≡ length bs
  length-order_by [] = refl
  length-order_by (b ∷ bs) =
      length-insert b (order_by value id dir bs) ∙ ap suc (length-order_by bs)

module _ {A : Type 0} (value id : A → ℕ) (dir : Dir) (p : A → Bool) where
  count_where-insert :
      (a : A) (bs : List A) → count_where p (insert value id dir a bs) ≡ count_where p (a ∷ bs)
  count_where-insert a [] = refl
  count_where-insert a (b ∷ bs) = ground (arith, count_where-insert a bs)

  -- Ordering rows neither loses nor repeats one.
  pub count_where-order_by :
      (bs : List A) → count_where p (order_by value id dir bs) ≡ count_where p bs
  count_where-order_by [] = refl
  count_where-order_by (b ∷ bs) =
      ground (arith, count_where-insert b (order_by value id dir bs), count_where-order_by bs)

module _ {A : Type 0} (id : A → ℕ) (p : A → Bool) where
  find_key-select_where :
      (k : ℕ) (xs : List A) → find_key id k xs ≡ none → find_key id k (select_where p xs) ≡ none
  find_key-select_where k [] h = refl
  find_key-select_where k (x ∷ xs) h = ground (arith, find_key-select_where k xs)

  -- What is selected from a table with a primary key has one.
  pub select_where-IsKeyed : (xs : List A) → IsKeyed id xs → IsKeyed id (select_where p xs)
  select_where-IsKeyed [] h = tt
  select_where-IsKeyed (x ∷ xs) (n, h) =
      ground (arith, select_where-IsKeyed xs h, find_key-select_where (id x) xs n)
