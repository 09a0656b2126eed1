-- ===== src/Accounts/Lockout.antt =====
-- The login lockout: src/features/shared/auth/infrastructure/http/loginLockout.ts. Its keys are
-- digests of the address (src/utils/email-hash.ts), so `email_key` is given here as a number.
use lakira_backend.Base.{
  ℕ, ◌+◌, ◌*◌, Bool, true, not, ◌&&◌, ◌||◌, Option, none, some, List, [], ◌∷◌, ◌==◌, leb,
  if◌then◌else◌,
}
use lakira_backend.Store.{World, Counter, Action, pure, throw, app_error}

abbrev pub lockout_threshold : ℕ
lockout_threshold = 5

abbrev pub lockout_ttl_ms : ℕ
lockout_ttl_ms = 15 * 60 * 1000

-- A key with an expiry in the past is gone.
abbrev pub is_live : ℕ → Counter → Bool
is_live now c = elim c.expires_at [ none ↦ true | some at ↦ not (leb at now) ]

abbrev pub Counters : Type 0
Counters = List (ℕ × Counter)

abbrev pub get_counter : ℕ → ℕ → Counters → Option Counter
get_counter now k [] = none
get_counter now k ((j, c) ∷ m) =
    if j == k then (if is_live now c then some c else none) else get_counter now k m

abbrev pub put_counter : ℕ → Counter → Counters → Counters
put_counter k c [] = (k, c) ∷ []
put_counter k c ((j, d) ∷ m) = if j == k then (k, c) ∷ m else (j, d) ∷ put_counter k c m

abbrev pub del_counter : ℕ → Counters → Counters
del_counter k [] = []
del_counter k ((j, d) ∷ m) = if j == k then m else (j, d) ∷ del_counter k m

abbrev pub counted : Option Counter → ℕ
counted none = 0
counted (some c) = c.count

-- `INCR`: a missing key becomes 1 with no expiry; an existing one keeps its expiry.
abbrev pub incremented : Option Counter → Counter
incremented none = record { count = 1; expires_at = none }
incremented (some c) = record c { count = c.count + 1 }

abbrev pub set_failures : Counters → World → World
set_failures m w = record w { failures = m }

unfoldable pub check_lockout : ℕ → ℕ → Action (Unit {0})
check_lockout now key w =
    if not w.redis.is_open || w.redis.get_throws
    then pure tt w
    else if leb lockout_threshold (counted (get_counter now key w.failures))
    then throw (app_error 429) w
    else pure tt w

unfoldable pub record_failure : ℕ → ℕ → World → World
record_failure now key w =
    if not w.redis.is_open || w.redis.incr_throws
    then w
    else let c = incremented (get_counter now key w.failures) in
      let m = put_counter key c w.failures in
      if c.count == 1 && not w.redis.expire_throws
      then set_failures (put_counter key (record c { expires_at = some (now + lockout_ttl_ms) }) m)
          w
      else set_failures m w

unfoldable pub reset_failures : ℕ → World → World
reset_failures key w =
    if not w.redis.is_open || w.redis.del_throws
    then w
    else set_failures (del_counter key w.failures) w
