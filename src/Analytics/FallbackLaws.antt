-- ===== src/Analytics/FallbackLaws.antt =====
-- The size of a fallback range.
use lakira_backend.Base.{ℕ, ◌+◌, ◌-◌, ◌*◌, ◌≤◌, ◌≡◌, Option, some, get_or_else, arith}
use lakira_backend.Analytics.Buckets.{
  BucketAlias, one_hour, one_day, one_week, one_month, one_year, spec_of, resolve_bucket,
}
use lakira_backend.Analytics.Windows.{start_of_next_bucket}
use lakira_backend.Analytics.Fallback.{
  default_horizon_ms, Requested, FallbackComputation, estimate_buckets, compute_fallback_range,
}

-- A span of at most `n` buckets is estimated at `n + 1` at most.
estimate_small :
    (start stop n : ℕ) (bucket : BucketAlias)
    → stop - start ≤ n * (resolve_bucket (some bucket)).approx_ms
    → estimate_buckets start stop (resolve_bucket (some bucket)).approx_ms ≤ n + 1
unfolding estimate_buckets resolve_bucket spec_of
estimate_small start stop n one_hour h = omega arith
estimate_small start stop n one_day h = omega arith
estimate_small start stop n one_week h = omega arith
estimate_small start stop n one_month h = omega arith
estimate_small start stop n one_year h = omega arith

-- A fallback range ends with the bucket of the newest log, is no longer than the horizon and than
-- the guard's number of buckets, and its estimate is at most one bucket above the guard.
pub compute_fallback_range_bounds :
    (wall_time_of : ℕ → ℕ) (requested : Requested) (last guard_buckets : ℕ)
    (max_horizon_ms : Option ℕ) (f : FallbackComputation)
    → compute_fallback_range wall_time_of requested (some last) guard_buckets max_horizon_ms
      ≡ some f
    → (f.range.stop ≡ start_of_next_bucket wall_time_of last requested.bucket)
      × (f.range.stop ≤ f.range.start + get_or_else max_horizon_ms default_horizon_ms)
      × (f.estimated_buckets ≤ guard_buckets + 1)
unfolding compute_fallback_range
compute_fallback_range_bounds wall_time_of requested last guard_buckets max_horizon_ms f h =
    ground (arith, estimate_small f.range.start f.range.stop guard_buckets requested.bucket)
