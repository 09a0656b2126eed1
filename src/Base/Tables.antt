-- ===== src/Base/Tables.antt =====
-- A database table as a list of rows with a numeric primary key, and the statements that the
-- repositories send: select the first row, update, insert or update by key, delete by key, count.
use Prim.Native.Nat.{ℕ, ◌+◌}
use mathlib.Core.Path.{◌≡◌}
use mathlib.Core.Bool.{Bool, true, false}
use mathlib.Core.Option.{Option, none, some}
use mathlib.Core.List.{List, [], ◌∷◌, ◌++◌}
use lakira_backend.Base.Tests.{◌==◌, if◌then◌else◌, is_some}

-- One where the test holds, for counting.
abbrev pub bit : Bool → ℕ
bit true = 1
bit false = 0

module _ {ℓ} {A : Type ℓ} where
  abbrev pub find_where : (A → Bool) → List A → Option A
  find_where p [] = none
  find_where p (x ∷ xs) = if p x then some x else find_where p xs

  abbrev pub update_where : (A → Bool) → (A → A) → List A → List A
  update_where p f [] = []
  update_where p f (x ∷ xs) = (if p x then f x else x) ∷ update_where p f xs

  abbrev pub delete_where : (A → Bool) → List A → List A
  delete_where p [] = []
  delete_where p (x ∷ xs) = if p x then delete_where p xs else x ∷ delete_where p xs

  abbrev pub select_where : (A → Bool) → List A → List A
  select_where p [] = []
  select_where p (x ∷ xs) = if p x then x ∷ select_where p xs else select_where p xs

  abbrev pub count_where : (A → Bool) → List A → ℕ
  count_where p [] = 0
  count_where p (x ∷ xs) = bit (p x) + count_where p xs

module _ {ℓ} {A : Type ℓ} (key : A → ℕ) where
  abbrev pub find_key : ℕ → List A → Option A
  find_key k [] = none
  find_key k (x ∷ xs) = if key x == k then some x else find_key k xs

  abbrev pub replace_key : ℕ → A → List A → List A
  replace_key k r [] = []
  replace_key k r (x ∷ xs) = (if key x == k then r else x) ∷ replace_key k r xs

  abbrev pub delete_key : ℕ → List A → List A
  delete_key k [] = []
  delete_key k (x ∷ xs) = if key x == k then delete_key k xs else x ∷ delete_key k xs

  -- `INSERT … ON CONFLICT (key) DO UPDATE`
  unfoldable pub upsert_key : A → List A → List A
  upsert_key r xs = if is_some (find_key (key r) xs) then replace_key (key r) r xs else xs ++ r ∷ []

  -- The primary key constraint.
  abbrev pub IsKeyed : List A → Type ℓ
  IsKeyed [] = Unit
  IsKeyed (x ∷ xs) = (find_key (key x) xs ≡ none) × IsKeyed xs
