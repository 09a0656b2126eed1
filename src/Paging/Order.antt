-- ===== src/Paging/Order.antt =====
-- The order of a window, and what a cursor cuts off it.
use lakira_backend.Base.{
  ℕ, ◌≡◌, ◌≢◌, refl, ap, Bool, true, false, none, List, [], ◌∷◌, ◌++◌, arith, inl, inr,
  if◌then◌else◌, All, select_where, find_key, IsKeyed, Bool-cases,
}
use lakira_backend.Paging.Window.{Dir, asc, desc, position_of, is_after, insert, order_by}

module _ {A : Type 0} (value id : A → ℕ) (dir : Dir) where
  abbrev pub Precedes : A → A → Type 0
  Precedes a b = is_after value id dir (position_of value id dir a) b ≡ true

  abbrev pub Ordered : List A → Type 0
  Ordered [] = Unit
  Ordered (a ∷ rest) = All (Precedes a) rest × Ordered rest

  Precedes-trans : (a b c : A) → Precedes a b → Precedes b c → Precedes a c
  Precedes-trans a b c p q =
      elim dir
          as (λ d.
            is_after value id d (position_of value id d a) b ≡ true
            → is_after value id d (position_of value id d b) c ≡ true
            → is_after value id d (position_of value id d a) c ≡ true) [
              | asc ↦ λ p q. ground arith
              | desc ↦ λ p q. ground arith
            ]
        p q

  pub Precedes-asym :
      (a b : A) → Precedes a b → is_after value id dir (position_of value id dir b) a ≡ false
  Precedes-asym a b p = ground arith

  pub Precedes-irrefl : (a : A) → is_after value id dir (position_of value id dir a) a ≡ false
  Precedes-irrefl a = ground arith

  Precedes-total :
      (a b : A)
      → id a ≢ id b
      → is_after value id dir (position_of value id dir a) b ≡ false
      → Precedes b a
  Precedes-total a b d p = ground arith

  All-weaken : (a b : A) (bs : List A) → Precedes a b → All (Precedes b) bs → All (Precedes a) bs
  All-weaken a b [] p h = tt
  All-weaken a b (c ∷ cs) p (q, h) = (Precedes-trans a b c p q, All-weaken a b cs p h)

  All-insert :
      (a b : A) (bs : List A)
      → Precedes a b
      → All (Precedes a) bs
      → All (Precedes a) (insert value id dir b bs)
  All-insert a b [] p h = (p, tt)
  All-insert a b (c ∷ cs) p (q, h) =
      elim (Bool-cases (is_after value id dir (position_of value id dir b) c)) [
        | inl before ↦ rw before (p, (q, h))
        | inr later ↦ rw later (q, All-insert a b cs p h)
      ]

  insert-Ordered :
      (a : A) (bs : List A)
      → find_key id (id a) bs ≡ none
      → Ordered bs
      → Ordered (insert value id dir a bs)
  insert-Ordered a [] n h = (tt, tt)
  insert-Ordered a (b ∷ bs) n (h, o) =
      elim (Bool-cases (is_after value id dir (position_of value id dir a) b)) [
        | inl before ↦ rw before ((before, All-weaken a b bs before h), (h, o))
        | inr later ↦
            let other : id a ≢ id b = ground arith in
            let absent : find_key id (id a) bs ≡ none = ground arith in
            rw later
              (All-insert b a bs (Precedes-total a b other later) h, insert-Ordered a bs absent o)
      ]

  find_key-insert :
      (k : ℕ) (a : A) (bs : List A)
      → id a ≢ k
      → find_key id k bs ≡ none
      → find_key id k (insert value id dir a bs) ≡ none
  find_key-insert k a [] d n = ground arith
  find_key-insert k a (b ∷ bs) d n = ground (arith, find_key-insert k a bs d)

  find_key-order_by :
      (k : ℕ) (bs : List A)
      → find_key id k bs ≡ none
      → find_key id k (order_by value id dir bs) ≡ none
  find_key-order_by k [] n = refl
  find_key-order_by k (b ∷ bs) n =
      ground (arith, find_key-order_by k bs, find_key-insert k b (order_by value id dir bs))

  pub order_by-Ordered : (bs : List A) → IsKeyed id bs → Ordered (order_by value id dir bs)
  order_by-Ordered [] h = tt
  order_by-Ordered (b ∷ bs) (n, h) =
      insert-Ordered b (order_by value id dir bs) (find_key-order_by (id b) bs n)
        (order_by-Ordered bs h)

  insert_first : (a : A) (bs : List A) → All (Precedes a) bs → insert value id dir a bs ≡ a ∷ bs
  insert_first a [] h = refl
  insert_first a (b ∷ bs) (p, h) = rw p refl

  All-select_where :
      (a : A) (p : A → Bool) (bs : List A)
      → All (Precedes a) bs
      → All (Precedes a) (select_where p bs)
  All-select_where a p [] h = tt
  All-select_where a p (b ∷ bs) (q, h) = ground (arith, All-select_where a p bs h)

  select_where-insert :
      (p : A → Bool) (a : A) (bs : List A)
      → Ordered bs
      → select_where p (insert value id dir a bs)
        ≡ (if p a then insert value id dir a (select_where p bs) else select_where p bs)
  select_where-insert p a [] o = ground arith
  select_where-insert p a (b ∷ bs) (h, o) =
      elim (Bool-cases (is_after value id dir (position_of value id dir a) b)) [
        | inl before ↦
            let first =
              insert_first a (select_where p (b ∷ bs))
                (All-select_where a p (b ∷ bs) (before, All-weaken a b bs before h)) in
            ground arith
        | inr later ↦ elim (Bool-cases (p b)) [
          | inl kept ↦ ground (arith, select_where-insert p a bs o)
          | inr gone ↦ ground (arith, select_where-insert p a bs o)
        ]
      ]

  -- Selecting before the rows are ordered selects from the ordered rows.
  pub order_by-select_where :
      (p : A → Bool) (bs : List A)
      → IsKeyed id bs
      → order_by value id dir (select_where p bs) ≡ select_where p (order_by value id dir bs)
  order_by-select_where p [] h = refl
  order_by-select_where p (b ∷ bs) (n, h) =
      let inserted = select_where-insert p b (order_by value id dir bs) (order_by-Ordered bs h) in
      let rest = order_by-select_where p bs h in
      elim (Bool-cases (p b)) [ inl kept ↦ ground arith | inr gone ↦ ground arith ]

  abbrev after_row : A → A → Bool
  after_row a = is_after value id dir (position_of value id dir a)

  select-All : (a : A) (bs : List A) → All (Precedes a) bs → select_where (after_row a) bs ≡ bs
  select-All a [] h = refl
  select-All a (b ∷ bs) (p, h) = rw p (ap (λ l. b ∷ l) (select-All a bs h))

  All-middle : (a b : A) (xs ys : List A) → All (Precedes a) (xs ++ b ∷ ys) → Precedes a b
  All-middle a b [] ys (p, h) = p
  All-middle a b (x ∷ xs) ys (p, h) = All-middle a b xs ys h

  -- What comes after a row of an ordered table is what follows it.
  pub select_after :
      (xs : List A) (a : A) (ys : List A)
      → Ordered (xs ++ a ∷ ys)
      → select_where (after_row a) (xs ++ a ∷ ys) ≡ ys
  select_after [] a ys (h, o) = rw (Precedes-irrefl a) (select-All a ys h)
  select_after (x ∷ xs) a ys (h, o) =
      rw (Precedes-asym x a (All-middle x a xs ys h)) (select_after xs a ys o)
