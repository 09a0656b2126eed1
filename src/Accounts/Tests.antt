-- ===== src/Accounts/Tests.antt =====
-- The theorems on the lockout at small inputs.
use lakira_backend.Base.{◌+◌, ◌&&◌, ◌≡◌, refl, true, [], ◌∷◌, arith, leb, ltb, if◌then◌else◌}
use lakira_backend.Store.{World, ok, err, app_error}
use lakira_backend.Samples.{redis_up, small_world}
use lakira_backend.Accounts.Lockout.{lockout_ttl_ms, check_lockout, record_failure}
use lakira_backend.Accounts.Blocking.{fail_at, lockout_exact, lockout_sticks}

lockout_exact_example :
    (check_lockout 60 77 (fail_at 77 (10 ∷ 20 ∷ 30 ∷ 40 ∷ 50 ∷ []) small_world)).0
    ≡ (if ltb 60 (10 + lockout_ttl_ms) && leb 5 (5) then err (app_error 429) else ok tt)
lockout_exact_example =
    lockout_exact 77 10 60 (20 ∷ 30 ∷ 40 ∷ 50 ∷ []) small_world (refl, (refl, refl)) refl refl
      (omega arith, (omega arith, (omega arith, (omega arith, tt))))

-- Redis with an EXPIRE that throws.
abbrev no_expiry : World
no_expiry = record small_world { redis = record redis_up { expire_throws = true } }

lockout_sticks_example :
    (check_lockout 9_000_000 77 (fail_at 77 (10 ∷ 20 ∷ 30 ∷ 40 ∷ 50 ∷ []) no_expiry)).0
    ≡ err (app_error 429)
lockout_sticks_example =
    lockout_sticks 77 10 9_000_000 (20 ∷ 30 ∷ 40 ∷ 50 ∷ []) no_expiry (refl, (refl, refl)) refl refl
      (omega arith)

four_failures_pass :
    (check_lockout 60 77 (fail_at 77 (10 ∷ 20 ∷ 30 ∷ 40 ∷ []) small_world)).0 ≡ ok tt
unfolding check_lockout fail_at record_failure
four_failures_pass = refl
