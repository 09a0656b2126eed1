-- ===== src/Analytics/Zone.antt =====
-- zoneFor of relative-range.ts. The wall time of an instant is what `Intl.DateTimeFormat` says, a
-- parameter. Instants and wall times count from the same day, before every time that a Date holds,
-- and an offset, which may be negative, is compared with its two terms on opposite sides.
use lakira_backend.Base.{
  ℕ, zero, suc, ◌+◌, ◌-◌, ◌*◌, ◌/◌, ◌≤◌, ◌<◌, ◌≡◌, min, max, Bool, true, false, List, [], ◌∷◌, ◌==◌,
  ltb, if◌then◌else◌, select_where,
}
use lakira_backend.Analytics.Calendar.{day_ms}

-- `Math.min(m, ...ms)`
abbrev pub least : ℕ → List ℕ → ℕ
least m [] = m
least m (n ∷ ms) = least (min m n) ms

module _ (wall_time_of : ℕ → ℕ) where
  -- `offsetAt(a) === offsetAt(b)`
  abbrev pub same_offset : ℕ → ℕ → Bool
  same_offset a b = wall_time_of a + b == wall_time_of b + a

  -- `wallMs - offsetAt(near)`
  abbrev pub candidate : ℕ → ℕ → ℕ
  candidate wall_ms near = wall_ms + near - wall_time_of near

  -- The loop on the two ends, with their distance as fuel.
  unfoldable pub find_change : ℕ → ℕ → ℕ → ℕ
  find_change zero before after = after
  find_change (suc fuel) before after =
      let middle = before + (after - before) / 2 in
      let same = same_offset middle after in
      elim (ltb 1 (after - before)) [
        | true ↦ find_change fuel (if same then before else middle) (if same then middle else after)
        | false ↦ after
      ]

  unfoldable pub instant_of : ℕ → ℕ
  instant_of wall_ms =
      let early = candidate wall_ms (wall_ms - day_ms) in
      let late = candidate wall_ms (wall_ms + day_ms) in
      let before = min early late in
      let after = max early late in
      elim (select_where (λ c. wall_time_of c == wall_ms) (early ∷ late ∷ [])) [
        | [] ↦ find_change (after - before) before after
        | m ∷ ms ↦ least m ms
      ]

  -- What time zones do: from `low` to `high` the clocks are moved at most once, at `change`, and
  -- they are less than a day off. The offsets stand a day higher than they are.
  pub record OneChange (low high : ℕ) : Type 0 where
    pub change : ℕ
    pub offset_before : ℕ
    pub offset_after : ℕ
    pub early_small : offset_before < 2 * day_ms
    pub late_small : offset_after < 2 * day_ms
    pub early_positive : 0 < offset_before
    pub late_positive : 0 < offset_after
    pub is_early :
        (i : ℕ) → low ≤ i → i ≤ high → i < change → wall_time_of i + day_ms ≡ i + offset_before
    pub is_late :
        (i : ℕ) → low ≤ i → i ≤ high → change ≤ i → wall_time_of i + day_ms ≡ i + offset_after
