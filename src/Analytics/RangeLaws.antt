-- ===== src/Analytics/RangeLaws.antt =====
-- The ranges that relative windows give in a zone.
use lakira_backend.Base.{
  ℕ, ◌+◌, ◌-◌, ◌*◌, ◌≤◌, ◌<◌, ◌≡◌, ◌⊎◌, Option, true, refl, ap, inl, inr, none, some, arith,
  Bool-cases, Option-cases,
}
use lakira_backend.Text.{Text}
use lakira_backend.Analytics.Buckets.{BucketAlias}
use lakira_backend.Analytics.Calendar.{day_ms}
use lakira_backend.Analytics.Zone.{OneChange, instant_of}
use lakira_backend.Analytics.ZoneLaws.{instant_of_reaches}
use lakira_backend.Analytics.Windows.{
  RelativeWindow, window_range, is_within, start_of_next_bucket_wall, subtract_window_wall,
  parse_relative_window, resolve_relative_range,
}
use lakira_backend.Analytics.WindowLaws.{
  start_of_next_bucket_wall_after, start_of_next_bucket_wall_same, subtract_window_wall_before,
}

is_within_deep : (s : ℕ) → is_within s ≡ true → 2 * day_ms ≤ s
is_within_deep s h = ground arith

module _ (wall_time_of : ℕ → ℕ) where
  -- Two instants whose wall times are in one bucket are given the same range.
  pub resolve_relative_range_same :
      (last : Text) (bucket : BucketAlias) (now later : ℕ)
      → wall_time_of now ≤ wall_time_of later
      → wall_time_of later < start_of_next_bucket_wall (wall_time_of now) bucket
      → resolve_relative_range wall_time_of last bucket later
        ≡ resolve_relative_range wall_time_of last bucket now
  unfolding resolve_relative_range
  resolve_relative_range_same last bucket now later l h =
      ap (λ e. window_range wall_time_of e (parse_relative_window last))
        (start_of_next_bucket_wall_same (wall_time_of now) (wall_time_of later) bucket l h)

  -- Every window's range ends with the bucket.
  window_range_stop :
      (e : ℕ) (window : Option RelativeWindow)
      → (window_range wall_time_of e window).stop ≡ instant_of wall_time_of e
  window_range_stop e none = refl
  window_range_stop e (some window) =
      elim (Option-cases (subtract_window_wall e window.amount window.unit)) [
        | inl gone ↦ ground arith
        | inr (s, found) ↦ ground arith
      ]

  -- Where the clocks are set back after they showed the end of the bucket, a range that is asked
  -- for in the repeated time ends before the clocks are set back, and so before `now`.
  pub resolve_relative_range_misses :
      (last : Text) (bucket : BucketAlias) (now e : ℕ)
      (z : OneChange wall_time_of (e - day_ms) (e + day_ms))
      → start_of_next_bucket_wall (wall_time_of now) bucket ≡ e
      → 2 * day_ms ≤ e
      → e + day_ms < z.change + z.offset_before
      → z.change ≤ now
      → (resolve_relative_range wall_time_of last bucket now).stop < now
  unfolding resolve_relative_range
  resolve_relative_range_misses last bucket now e z next deep shown passed =
      let i = e + day_ms - z.offset_before in
      let at_i =
        z.is_early i (omega (arith, z.early_small)) (omega (arith, z.early_positive))
          (omega arith) in
      let (_, _, _, first) = instant_of_reaches wall_time_of e deep z in
      let sooner = first i (omega (arith, z.early_small)) in
      rw next (rw (window_range_stop e (parse_relative_window last)) (grind arith))

  module _
      (tame : (w : ℕ) → 2 * day_ms ≤ w → OneChange wall_time_of (w - day_ms) (w + day_ms)) where
    instant_of_rises :
        (v w : ℕ) → 2 * day_ms ≤ v → v ≤ w → instant_of wall_time_of v ≤ instant_of wall_time_of w
    instant_of_rises v w d h =
        let (_, _, _, first) = instant_of_reaches wall_time_of v d (tame v d) in
        let (low, _, shown, _) =
          instant_of_reaches wall_time_of w (omega arith) (tame w (omega arith)) in
        grind (arith, first (instant_of wall_time_of w) (omega arith))

    window_range_ordered :
        (e : ℕ) (window : Option RelativeWindow)
        → (window_range wall_time_of e window).start ≤ (window_range wall_time_of e window).stop
    window_range_ordered e none = omega arith
    window_range_ordered e (some window) =
        elim (Option-cases (subtract_window_wall e window.amount window.unit)) [
          | inl gone ↦ ground arith
          | inr (s, found) ↦ elim (Bool-cases (is_within s)) [
            | inl held ↦ ground (
              arith,
              instant_of_rises s e (is_within_deep s held)
                  (subtract_window_wall_before e window.amount window.unit s found),
            )
            | inr far ↦ ground arith
          ]
        ]

    stop_after :
        (e now : ℕ) (deep : 2 * day_ms ≤ e)
        → wall_time_of now < e
        → now < wall_time_of now + day_ms
        → ((tame e deep).offset_before ≤ (tame e deep).offset_after) ⊎ (now < (tame e deep).change)
        → now < instant_of wall_time_of e
    stop_after e now deep below near kept =
        let z = tame e deep in
        let r = instant_of wall_time_of e in
        let (low, high, shown, first) = instant_of_reaches wall_time_of e deep z in
        let r_early = z.is_early r low high in
        let r_late = z.is_late r low high in
        let now_early = z.is_early now in
        let now_late = z.is_late now in
        elim kept [ inl forward ↦ grind arith | inr early ↦ grind arith ]

    -- A relative range is not reversed and, unless the clocks were set back near its end, it ends
    -- after `now`.
    pub resolve_relative_range_covers :
        (last : Text) (bucket : BucketAlias) (now e : ℕ) (deep : 2 * day_ms ≤ e)
        → start_of_next_bucket_wall (wall_time_of now) bucket ≡ e
        → now < wall_time_of now + day_ms
        → ((tame e deep).offset_before ≤ (tame e deep).offset_after) ⊎ (now < (tame e deep).change)
        → (let r = resolve_relative_range wall_time_of last bucket now in
            (r.start ≤ r.stop) × (now < r.stop))
    unfolding resolve_relative_range
    resolve_relative_range_covers last bucket now e deep next near kept =
        let after = start_of_next_bucket_wall_after (wall_time_of now) bucket in
        let window = parse_relative_window last in
        rw next (
          window_range_ordered e window,
          rw (window_range_stop e window) (stop_after e now deep (omega arith) near kept),
        )
