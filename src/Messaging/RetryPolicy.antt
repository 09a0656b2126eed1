-- ===== src/Messaging/RetryPolicy.antt =====
-- src/shared/infrastructure/queue/retryPolicy.ts, with JavaScript's `parseInt(s, 10)` and
-- `String(n)` on whole numbers.
use lakira_backend.Base.{
  ℕ, zero, suc, ◌+◌, ◌-◌, ◌*◌, ◌/◌, ◌%◌, ◌^◌, min, Bool, true, false, ◌&&◌, Option, none, some,
  List, [], ◌∷◌, ◌==◌, leb, ltb, any, if◌then◌else◌,
}
use lakira_backend.Text.{Text, trim_start}
use lakira_backend.Store.{Failure, terminal_message}

abbrev pub max_retry_delay_ms : ℕ
max_retry_delay_ms = 300000

unfoldable pub retry_delay_ms : ℕ → ℕ → ℕ
retry_delay_ms retry_count base_delay_ms = min (base_delay_ms * 2 ^ retry_count) max_retry_delay_ms

abbrev pub has : ℕ → List ℕ → Bool
has d = any (λ e. e == d)

-- `[...new Set(delays)]`, the delays of the retries `from`, `from + 1`, … in order.
unfoldable pub delays_from : ℕ → ℕ → ℕ → List ℕ → List ℕ
delays_from zero from base seen = []
delays_from (suc left) from base seen =
    let d = retry_delay_ms from base in
    let rest = delays_from left (suc from) base (d ∷ seen) in
    let skipped = delays_from left (suc from) base seen in if has d seen then skipped else d ∷ rest

unfoldable pub retry_delays_ms : ℕ → ℕ → List ℕ
retry_delays_ms max_retries base = delays_from max_retries 0 base []

pub data ParkReason : Type 0 where
  terminal exhausted : ParkReason

pub data FailureDecision : Type 0 where
  park : ParkReason → FailureDecision
  retry : (next_retry_count delay_ms : ℕ) → FailureDecision

-- The number that the digits at the front of a text spell, after those read already.
unfoldable pub digits_value : ℕ → Text → ℕ
digits_value v [] = v
digits_value v (c ∷ s) =
    let rest = digits_value (v * 10 + (c - b'0')) s in if leb b'0' c && leb c b'9' then rest else v

abbrev pub starts_with_digit : Text → Bool
starts_with_digit [] = false
starts_with_digit (c ∷ _) = leb b'0' c && leb c b'9'

-- A sign, and what `parseInt` reads after it: `none` is NaN.
abbrev pub unsigned_value : Text → Option ℕ
unsigned_value s = if starts_with_digit s then some (digits_value 0 s) else none

-- `parsed` where it is a number that is not below zero, and otherwise 0.
abbrev pub signed_count : Text → ℕ
signed_count [] = 0
signed_count (c ∷ s) =
    if c == b'-'
    then 0
    else elim (unsigned_value (if c == b'+' then s else c ∷ s)) [ none ↦ 0 | some n ↦ n ]

-- `readRetryCount`, of `String(header)`, or of an absent header.
unfoldable pub read_retry_count : Option Text → ℕ
read_retry_count none = 0
read_retry_count (some header) = signed_count (trim_start header)

-- `String(n)`, with `n` as fuel.
unfoldable pub digits : ℕ → ℕ → Text → Text
digits zero n s = s
digits (suc f) n s =
    let rest = digits f (n / 10) ((b'0' + n % 10) ∷ s) in if ltb n 10 then (b'0' + n) ∷ s else rest

unfoldable pub print_count : ℕ → Text
print_count n = digits (suc n) n []

abbrev pub is_terminal_message_error : Failure → Bool
is_terminal_message_error terminal_message = true
is_terminal_message_error _ = false

unfoldable pub decide_on_failure : Failure → ℕ → ℕ → ℕ → FailureDecision
decide_on_failure error retry_count max_retries base_delay_ms =
    if is_terminal_message_error error
    then park terminal
    else if leb max_retries retry_count
    then park exhausted
    else retry (suc retry_count) (retry_delay_ms retry_count base_delay_ms)
