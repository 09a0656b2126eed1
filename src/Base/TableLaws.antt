-- ===== src/Base/TableLaws.antt =====
-- How the table statements move counts, keys and properties of all rows.
use Prim.Native.Nat.{ℕ, ◌+◌}
use mathlib.Core.Path.{◌≡◌, refl, ap, subst}
use mathlib.Core.Logic.{inl, inr}
use mathlib.Core.Bool.{Bool, true}
use mathlib.Core.Option.{none, some}
use mathlib.Core.List.{List, [], ◌∷◌, ◌++◌}
use native.Mathlib.Omega.{arith}
use lakira_backend.Base.Tests.{◌==◌, if◌then◌else◌, is_some, Bool-cases, ==_iff}
use lakira_backend.Base.Lists.{All}
use lakira_backend.Base.Tables.{
  bit, find_where, update_where, delete_where, count_where, find_key, replace_key, IsKeyed,
}

module _ {ℓ} {A : Type ℓ} where
  pub count_where-append :
      (p : A → Bool) (xs ys : List A)
      → count_where p (xs ++ ys) ≡ count_where p xs + count_where p ys
  count_where-append p [] ys = omega arith
  count_where-append p (x ∷ xs) ys = omega (arith, count_where-append p xs ys)

  pub find_where-holds :
      (p : A → Bool) (xs : List A) (x : A) → find_where p xs ≡ some x → p x ≡ true
  find_where-holds p [] x h = cc
  find_where-holds p (y ∷ xs) x h = ground (arith, find_where-holds p xs x)

  pub find_where-update_where :
      (p q : A → Bool) (f : A → A) (xs : List A) (x : A)
      → ((y : A) → p (f y) ≡ p y)
      → find_where p xs ≡ some x
      → q x ≡ true
      → find_where p (update_where q f xs) ≡ some (f x)
  find_where-update_where p q f [] x keeps h hit = cc
  find_where-update_where p q f (y ∷ xs) x keeps h hit =
      ground (arith, keeps y, find_where-update_where p q f xs x keeps)

  pub find_where-delete_where :
      (p q : A → Bool) (xs : List A)
      → find_where p xs ≡ none
      → find_where p (delete_where q xs) ≡ none
  find_where-delete_where p q [] h = refl
  find_where-delete_where p q (y ∷ xs) h = ground (arith, find_where-delete_where p q xs)

  pub delete_where-append_one :
      (q : A → Bool) (xs : List A) (x : A)
      → q x ≡ true
      → delete_where q (xs ++ x ∷ []) ≡ delete_where q xs
  delete_where-append_one q [] x hit = ground arith
  delete_where-append_one q (y ∷ xs) x hit = ground (arith, delete_where-append_one q xs x hit)

  pub All-append_one {κ} :
      (P : A → Type κ) (xs : List A) {x : A} → All P xs → P x → All P (xs ++ x ∷ [])
  All-append_one P [] h p = (p, tt)
  All-append_one P (y ∷ xs) (q, h) p = (q, All-append_one P xs h p)

module _ {ℓ} {A : Type ℓ} (key : A → ℕ) where
  pub find_key_eq : (k : ℕ) (xs : List A) (x : A) → find_key key k xs ≡ some x → key x ≡ k
  find_key_eq k [] x h = cc
  find_key_eq k (y ∷ xs) x h = ground (arith, find_key_eq k xs x)

  pub find_key-append :
      (k : ℕ) (xs : List A) (x : A)
      → find_key key k (xs ++ x ∷ []) ≡ (
          if is_some (find_key key k xs)
          then find_key key k xs
          else if key x == k
          then some x
          else none)
  find_key-append k [] x = ground arith
  find_key-append k (y ∷ xs) x = ground (arith, find_key-append k xs x)

  pub replace_key_missing :
      (k : ℕ) (r : A) (xs : List A) → find_key key k xs ≡ none → replace_key key k r xs ≡ xs
  replace_key_missing k r [] h = refl
  replace_key_missing k r (y ∷ xs) h = ground (arith, replace_key_missing k r xs)

  pub find_key-replace_key :
      (j k : ℕ) (r : A) (xs : List A)
      → key r ≡ k
      → find_key key j (replace_key key k r xs) ≡ (
          if j == k
          then (if is_some (find_key key j xs) then some r else none)
          else find_key key j xs)
  find_key-replace_key j k r [] e = ground arith
  find_key-replace_key j k r (y ∷ xs) e = ground (arith, find_key-replace_key j k r xs e)

  pub append_one-IsKeyed :
      (xs : List A) (x : A)
      → IsKeyed key xs
      → find_key key (key x) xs ≡ none
      → IsKeyed key (xs ++ x ∷ [])
  append_one-IsKeyed [] x h new = (refl, tt)
  append_one-IsKeyed (y ∷ xs) x h new =
      ground (arith, append_one-IsKeyed xs x h.1, find_key-append (key y) xs x)

  pub replace_key-IsKeyed :
      (k : ℕ) (r : A) (xs : List A)
      → key r ≡ k
      → IsKeyed key xs
      → IsKeyed key (replace_key key k r xs)
  replace_key-IsKeyed k r [] e h = tt
  replace_key-IsKeyed k r (y ∷ xs) e h =
      ground (arith, replace_key-IsKeyed k r xs e h.1, find_key-replace_key (key y) k r xs e)

  -- Replacing the row of a key moves a count by what the two rows add to it.
  pub count_where-replace_key :
      (p : A → Bool) (k : ℕ) (r : A) (xs : List A) (x : A)
      → IsKeyed key xs
      → find_key key k xs ≡ some x
      → count_where p (replace_key key k r xs) + bit (p x) ≡ count_where p xs + bit (p r)
  count_where-replace_key p k r [] x h found = cc
  count_where-replace_key p k r (y ∷ xs) x h found = elim (Bool-cases (key y == k)) [
    | inl here ↦
        let same : key y ≡ k = (==_iff (key y) k).0 here in
        let gone = subst (λ n. find_key key n xs ≡ none) same h.0 in
        let first : y ≡ x = ground arith in
        rw here (
          omega (
            arith,
            ap (λ l. count_where p l) (replace_key_missing k r xs gone),
            ap (λ v. bit (p v)) first,
          ))
    | inr there ↦ rw there (omega (arith, count_where-replace_key p k r xs x h.1 (ground arith)))
  ]

  -- A row that some test finds is the row of its key.
  pub find_key_of_find_where :
      (p : A → Bool) (xs : List A) (x : A)
      → IsKeyed key xs
      → find_where p xs ≡ some x
      → find_key key (key x) xs ≡ some x
  find_key_of_find_where p [] x h found = cc
  find_key_of_find_where p (y ∷ xs) x h found = elim (Bool-cases (p y)) [
    | inl here ↦ ground arith
    | inr there ↦
        let later : find_where p xs ≡ some x = ground arith in
        let known = find_key_of_find_where p xs x h.1 later in
        elim (Bool-cases (key y == key x)) [
          | inl same ↦
              let e : key y ≡ key x = (==_iff (key y) (key x)).0 same in
              cc (subst (λ n. find_key key n xs ≡ none) e h.0, known)
          | inr other ↦ rw other known
        ]
  ]
