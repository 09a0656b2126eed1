-- ===== src/Analytics/CalendarLaws.antt =====
-- The months' first days rise, and a day is in exactly one month.
use lakira_backend.Base.{
  ℕ, zero, suc, ◌+◌, ◌-◌, ◌*◌, ◌/◌, ◌%◌, ◌≤◌, ◌<◌, ◌≡◌, ◌⊎◌, ap, inl, inr, refl, Bool, arith, ltb,
  Bool-cases, bit,
}
use lakira_backend.Analytics.Calendar.{
  first_day_of_year, is_leap, days_before_month, first_day_of_month, last_month_from, month_of_day,
}

first_day_of_year_step :
    (y : ℕ) → first_day_of_year (suc y) ≡ first_day_of_year y + 365 + bit (is_leap y)
first_day_of_year_step y = ground arith

days_before_month_step :
    (leap : Bool) (m : ℕ)
    → m < 11
    → (days_before_month leap m + 28 ≤ days_before_month leap (suc m))
      × (days_before_month leap (suc m) ≤ days_before_month leap m + 31)
days_before_month_step leap m h = ground arith

january : (leap : Bool) → days_before_month leap 0 ≡ 0
january leap = ground arith

december : (leap : Bool) → days_before_month leap 11 + 31 ≡ 365 + bit leap
december leap = ground arith

month_number : (months : ℕ) → (months % 12 < 11) ⊎ (months % 12 ≡ 11)
month_number months = elim (Bool-cases (ltb (months % 12) 11)) [
  | inl h ↦ inl (ground arith)
  | inr h ↦ inr (ground arith)
]

pub first_day_of_month_step :
    (n : ℕ)
    → (first_day_of_month n + 28 ≤ first_day_of_month (suc n))
      × (first_day_of_month (suc n) ≤ first_day_of_month n + 31)
unfolding first_day_of_month
first_day_of_month_step n = elim (month_number n) [
  | inl h ↦
      let e : suc n / 12 ≡ n / 12 = omega arith in
      let f : suc n % 12 ≡ suc (n % 12) = omega arith in
      rw e (rw f (omega (arith, days_before_month_step (is_leap (n / 12)) (n % 12) h)))
  | inr h ↦
      let e : suc n / 12 ≡ suc (n / 12) = omega arith in
      let f : suc n % 12 ≡ 0 = omega arith in
      rw e (
        rw f (
          rw h (
            omega (
              arith,
              december (is_leap (n / 12)),
              first_day_of_year_step (n / 12),
              january (is_leap (suc (n / 12))),
            ))))
]

pub first_day_of_month_low : (n : ℕ) → 146097 * n ≤ 4800 * first_day_of_month n + 146097
unfolding first_day_of_month
first_day_of_month_low n = ground arith

pub first_day_of_month_high : (n : ℕ) → 4800 * first_day_of_month n ≤ 146097 * n + 146097
unfolding first_day_of_month
first_day_of_month_high n = ground arith

first_day_of_month_add : (n k : ℕ) → first_day_of_month n + k ≤ first_day_of_month (n + k)
first_day_of_month_add n zero =
    omega (arith, ap first_day_of_month {x = n} {y = n + 0} (omega arith))
first_day_of_month_add n (suc k) = omega (
  arith,
  first_day_of_month_add (suc n) k,
  first_day_of_month_step n,
  ap first_day_of_month {x = suc n + k} {y = n + suc k} (omega arith),
)

first_day_of_month_zero : first_day_of_month 0 ≡ 0
unfolding first_day_of_month
first_day_of_month_zero = refl

pub first_day_of_month_rises : (a b : ℕ) → a ≤ b → first_day_of_month a ≤ first_day_of_month b
first_day_of_month_rises a b h = omega (
  arith,
  first_day_of_month_add a (b - a),
  ap first_day_of_month {x = a + (b - a)} {y = b} (omega arith),
)

last_month_from-IsLast :
    (fuel day months : ℕ)
    → first_day_of_month months ≤ day
    → day < first_day_of_month (months + suc fuel)
    → (first_day_of_month (last_month_from fuel day months) ≤ day)
      × (day < first_day_of_month (suc (last_month_from fuel day months)))
unfolding last_month_from
last_month_from-IsLast zero day months low high = (
  low,
  omega (arith, high, ap first_day_of_month {x = suc months} {y = months + 1} (omega arith)),
)
last_month_from-IsLast (suc fuel) day months low high = ground (
  arith,
  last_month_from-IsLast fuel day (suc months),
  ap first_day_of_month {x = suc months + suc fuel} {y = months + suc (suc fuel)} (omega arith),
)

first_guess_low : (day q : ℕ) → 146097 * q ≤ 4800 * day → first_day_of_month (q - 1) ≤ day
unfolding first_day_of_month
first_guess_low day zero h = omega (arith, first_day_of_month_zero)
first_guess_low day (suc q) h = omega (arith, first_day_of_month_high q)

-- Each day is in the month that `month_of_day` gives.
pub month_of_day-Holds :
    (day : ℕ)
    → (first_day_of_month (month_of_day day) ≤ day)
      × (day < first_day_of_month (suc (month_of_day day)))
unfolding month_of_day
month_of_day-Holds day =
    let q = 4800 * day / 146097 in
    last_month_from-IsLast 3 day (q - 1) (first_guess_low day q (omega arith))
      (omega (arith, first_day_of_month_low (q - 1 + 4)))

pub month_of_day_eq :
    (day months : ℕ)
    → first_day_of_month months ≤ day
    → day < first_day_of_month (suc months)
    → month_of_day day ≡ months
month_of_day_eq day months low high = grind (
  arith,
  month_of_day-Holds day,
  first_day_of_month_rises (suc months) (month_of_day day),
  first_day_of_month_rises (suc (month_of_day day)) months,
)

-- Later days are in the same month or in a later one.
pub month_of_day_rises : (a b : ℕ) → a ≤ b → month_of_day a ≤ month_of_day b
month_of_day_rises a b h = grind (
  arith,
  month_of_day-Holds a,
  month_of_day-Holds b,
  first_day_of_month_rises (suc (month_of_day b)) (month_of_day a),
)
