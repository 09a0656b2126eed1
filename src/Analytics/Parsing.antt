-- ===== src/Analytics/Parsing.antt =====
-- The text of a relative window and what it is read as.
use lakira_backend.Base.{
  ℕ, zero, suc, ◌+◌, ◌-◌, ◌*◌, ◌/◌, ◌%◌, ◌≤◌, ◌<◌, ◌≡◌, ap, ◌∙◌, inl, inr, some, [], ◌∷◌, arith,
  Bool-cases, ltb,
}
use lakira_backend.Text.{Text}
use lakira_backend.Messaging.RetryPolicy.{digits}
use lakira_backend.Analytics.Windows.{
  RelativeUnit, RelativeWindow, max_safe_integer, parse_rest, parse_relative_window,
}

abbrev pub letter : RelativeUnit → ℕ
letter RelativeUnit.h = b'h'
letter RelativeUnit.d = b'd'
letter RelativeUnit.w = b'w'
letter RelativeUnit.m = b'm'
letter RelativeUnit.y = b'y'

-- `${amount}${unit}`
unfoldable pub print_window : RelativeWindow → Text
print_window window = digits (suc window.amount) window.amount (letter window.unit ∷ [])

parse_rest_digit :
    (n c : ℕ) (s : Text) → parse_rest (n / 10) ((b'0' + n % 10) ∷ c ∷ s) ≡ parse_rest n (c ∷ s)
unfolding parse_rest
parse_rest_digit n c s = ground (
  arith,
  ap (λ v. parse_rest v (c ∷ s)) {x = n / 10 * 10 + (b'0' + n % 10 - b'0')} {y = n} (omega arith),
)

parse_digits :
    (f n c : ℕ) (s : Text)
    → 0 < n
    → n < f
    → parse_relative_window (digits f n (c ∷ s)) ≡ parse_rest n (c ∷ s)
unfolding digits parse_relative_window
parse_digits zero n c s p h = elim h [ ]
parse_digits (suc f) n c s p h = elim (Bool-cases (ltb n 10)) [
  | inl small ↦
      ground (arith, ap (λ v. parse_rest v (c ∷ s)) {x = b'0' + n - b'0'} {y = n} (omega arith))
  | inr large ↦ rw large (
      parse_digits f (n / 10) (b'0' + n % 10) (c ∷ s) (ground arith) (ground arith)
      ∙ parse_rest_digit n c s)
]

parse_unit :
    (u : RelativeUnit) (n : ℕ)
    → n ≤ max_safe_integer
    → parse_rest n (letter u ∷ []) ≡ some (record { amount = n; unit = u })
unfolding parse_rest
parse_unit RelativeUnit.h n h = ground arith
parse_unit RelativeUnit.d n h = ground arith
parse_unit RelativeUnit.w n h = ground arith
parse_unit RelativeUnit.m n h = ground arith
parse_unit RelativeUnit.y n h = ground arith

-- A window's own text is read as that window.
pub parse_relative_window-print_window :
    (window : RelativeWindow)
    → 0 < window.amount
    → window.amount ≤ max_safe_integer
    → parse_relative_window (print_window window) ≡ some window
unfolding print_window
parse_relative_window-print_window window p h =
    parse_digits (suc window.amount) window.amount (letter window.unit) [] p (omega arith)
    ∙ parse_unit window.unit window.amount h
