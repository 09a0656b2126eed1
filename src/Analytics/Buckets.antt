-- ===== src/Analytics/Buckets.antt =====
-- src/features/public/analytics/domain/buckets.ts. The texts of a bucket (its ISO duration and
-- its SQL interval) are its alias again, and are left out.
use lakira_backend.Base.{ℕ, Option, get_or_else}

pub data Granularity : Type 0 where
  hour day week month year : Granularity

pub data BucketAlias : Type 0 where
  one_hour one_day one_week one_month one_year : BucketAlias

pub record BucketSpec : Type 0 where
  pub unit : Granularity
  pub trunc : Granularity
  pub approx_ms : ℕ

-- `MAP[alias]`
unfoldable pub spec_of : BucketAlias → BucketSpec
spec_of one_hour = record { unit = hour; trunc = hour; approx_ms = 3_600_000 }
spec_of one_day = record { unit = day; trunc = day; approx_ms = 86_400_000 }
spec_of one_week = record { unit = week; trunc = week; approx_ms = 604_800_000 }
spec_of one_month = record { unit = month; trunc = month; approx_ms = 2_629_746_000 }
spec_of one_year = record { unit = year; trunc = year; approx_ms = 31_556_952_000 }

unfoldable pub resolve_bucket : Option BucketAlias → BucketSpec
resolve_bucket b = spec_of (get_or_else b one_day)
