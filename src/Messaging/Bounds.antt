-- ===== src/Messaging/Bounds.antt =====
-- Retry delays, and the retry count through the header.
use lakira_backend.Base.{
  ℕ, zero, suc, ◌+◌, ◌-◌, ◌*◌, ◌/◌, ◌%◌, ◌≤◌, ◌<◌, ◌≡◌, refl, sym, ap, ◌∙◌, inl, inr, some, [], ◌∷◌,
  arith, ltb, Bool-cases,
}
use lakira_backend.Text.{Text, trim_start}
use lakira_backend.Messaging.RetryPolicy.{
  max_retry_delay_ms, retry_delay_ms, digits_value, digits, print_count, read_retry_count,
}
use native.Mathlib.Nat.{pow-suc}

-- A delay never exceeds five minutes, is the base at first, and never falls from one retry to
-- the next, which waits at most twice as long.
pub retry_delay_bounds :
    (n base : ℕ)
    → (retry_delay_ms n base ≤ max_retry_delay_ms)
      × (retry_delay_ms n base ≤ retry_delay_ms (suc n) base)
      × (retry_delay_ms (suc n) base ≤ 2 * retry_delay_ms n base)
unfolding retry_delay_ms
retry_delay_bounds n base = rw pow-suc (omega arith)

digits_value_nil : (v : ℕ) → digits_value v [] ≡ v
unfolding digits_value
digits_value_nil v = refl

digits_value-cons :
    (v d : ℕ) (s : Text) → d < 10 → digits_value v ((b'0' + d) ∷ s) ≡ digits_value (v * 10 + d) s
unfolding digits_value
digits_value-cons v d s h =
    ground (arith, ap (λ n. digits_value n s) {x = v * 10 + (b'0' + d - b'0')} {y = v * 10 + d})

digits_value-digits :
    (f n : ℕ) (s : Text) → n < f → digits_value 0 (digits f n s) ≡ digits_value n s
unfolding digits
digits_value-digits zero n s h = elim h [ ]
digits_value-digits (suc f) n s h = elim (Bool-cases (ltb n 10)) [
  | inl small ↦
      rw small (digits_value-cons 0 n s (ground arith) ∙ ap (λ v. digits_value v s) (omega arith))
  | inr large ↦ rw large (
      digits_value-digits f (n / 10) ((b'0' + n % 10) ∷ s) (ground arith)
      ∙ digits_value-cons (n / 10) (n % 10) s (omega arith)
      ∙ ap (λ v. digits_value v s) (omega arith))
]

-- The first character that is printed is a digit.
digits_head :
    (f n : ℕ) (s : Text)
    → n < f
    → (c : ℕ) × (r : Text) × (digits f n s ≡ c ∷ r) × (b'0' ≤ c) × (c ≤ b'9')
unfolding digits
digits_head zero n s h = elim h [ ]
digits_head (suc f) n s h = elim (Bool-cases (ltb n 10)) [
  | inl small ↦ (b'0' + n, s, rw small refl, ground arith, ground arith)
  | inr large ↦ rw large (digits_head f (n / 10) ((b'0' + n % 10) ∷ s) (ground arith))
]

signed_count_of_digit :
    (c : ℕ) (r : Text)
    → b'0' ≤ c
    → c ≤ b'9'
    → read_retry_count (some (c ∷ r)) ≡ digits_value 0 (c ∷ r)
unfolding read_retry_count trim_start
signed_count_of_digit c r low high = ground arith

-- The count that a retry writes into the header is the count that the next delivery reads.
pub read_retry_count-print_count : (n : ℕ) → read_retry_count (some (print_count n)) ≡ n
unfolding print_count
read_retry_count-print_count n =
    let (c, r, shape, low, high) = digits_head (suc n) n [] (omega arith) in
    rw shape (signed_count_of_digit c r low high)
    ∙ ap (λ t. digits_value 0 t) (sym shape)
    ∙ digits_value-digits (suc n) n [] (omega arith)
    ∙ digits_value_nil n
