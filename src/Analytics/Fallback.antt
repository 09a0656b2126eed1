-- ===== src/Analytics/Fallback.antt =====
-- src/features/public/analytics/domain/fallback-range.ts. A date is what `Date.parse` makes of its
-- text, with `none` for NaN, on the count of milliseconds of the calendar.
use lakira_backend.Base.{
  ℕ, ◌+◌, ◌-◌, ◌*◌, ◌/◌, min, max, Option, none, some, get_or_else, leb, if◌then◌else◌,
}
use lakira_backend.Analytics.Buckets.{BucketAlias, resolve_bucket}
use lakira_backend.Analytics.Windows.{Range, start_of_next_bucket}

abbrev pub default_horizon_ms : ℕ
default_horizon_ms = 1000 * 60 * 60 * 24 * 180

pub record Requested : Type 0 where
  pub start : Option ℕ
  pub stop : Option ℕ
  pub bucket : BucketAlias

pub record FallbackComputation : Type 0 where
  pub range : Range
  pub bucket : BucketAlias
  pub estimated_buckets : ℕ

-- `requestedDurationMs`
unfoldable pub requested_duration_ms : Requested → ℕ
requested_duration_ms requested = elim requested.start [
  | none ↦ default_horizon_ms
  | some start ↦ elim requested.stop [
    | none ↦ default_horizon_ms
    | some stop ↦ if leb stop start then default_horizon_ms else stop - start
  ]
]

-- `estimateBuckets`: the whole buckets that the span reaches into, and one.
unfoldable pub estimate_buckets : ℕ → ℕ → ℕ → ℕ
estimate_buckets start stop approx_ms = (stop - start + (approx_ms - 1)) / approx_ms + 1

module _ (wall_time_of : ℕ → ℕ) where
  -- `computeFallbackRange`
  unfoldable pub compute_fallback_range :
      Requested → Option ℕ → (guard_buckets : ℕ) → Option ℕ → Option FallbackComputation
  compute_fallback_range requested none guard_buckets max_horizon_ms = none
  compute_fallback_range requested (some last) guard_buckets max_horizon_ms =
      let approx_ms = (resolve_bucket (some requested.bucket)).approx_ms in
      let stop = start_of_next_bucket wall_time_of last requested.bucket in
      let horizon = get_or_else max_horizon_ms default_horizon_ms in
      let span =
        min horizon
          (min (max (requested_duration_ms requested) approx_ms) (guard_buckets * approx_ms)) in
      let start = stop - span in
      some (record {
        range = record { start = start; stop = stop };
        bucket = requested.bucket;
        estimated_buckets = estimate_buckets start stop approx_ms;
      })
