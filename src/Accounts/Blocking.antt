-- ===== src/Accounts/Blocking.antt =====
-- When the login lockout blocks an address.
use lakira_backend.Base.{
  ℕ, suc, ◌+◌, ◌<◌, ◌≤◌, ◌≡◌, refl, sym, subst, ◌∙◌, inl, inr, Bool, true, false, ◌&&◌, none, some,
  List, [], ◌∷◌, leb, ltb, if◌then◌else◌, arith, length, All, Bool-cases,
}
use lakira_backend.Store.{World, Counter, RedisHealth, ok, err, app_error}
use lakira_backend.Accounts.Lockout.{
  lockout_ttl_ms, is_live, Counters, get_counter, put_counter, check_lockout, record_failure,
}

-- The connection is open, and the commands that count and read answer.
abbrev pub Answers : RedisHealth → Type 0
Answers r = (r.is_open ≡ true) × ((r.incr_throws ≡ false) × (r.get_throws ≡ false))

-- Failed logins of one address, at the given times in order.
unfoldable pub fail_at : ℕ → List ℕ → World → World
fail_at key [] w = w
fail_at key (t ∷ ts) w = fail_at key ts (record_failure t key w)

-- The counter is the key's, read at any time.
abbrev Holds : ℕ → Counter → Counters → Type 0
Holds key c m = (t : ℕ) → get_counter t key m ≡ (if is_live t c then some c else none)

put_counter-Holds : (key : ℕ) (c : Counter) (m : Counters) → Holds key c (put_counter key c m)
put_counter-Holds key c [] = λ t. ground arith
put_counter-Holds key c ((j, d) ∷ m) = λ t. ground (arith, put_counter-Holds key c m t)

abbrev plus : ℕ → Counter → Counter
plus n c = record c { count = c.count + n }

next_failure :
    (key t : ℕ) (c : Counter) (w : World)
    → Answers w.redis
    → Holds key c w.failures
    → is_live t c ≡ true
    → 1 ≤ c.count
    → (Holds key (plus 1 c) (record_failure t key w).failures)
      × ((record_failure t key w).redis ≡ w.redis)
unfolding record_failure
next_failure key t c w (a, (b, d)) h live some_count =
    (λ u. ground (arith, h t, put_counter-Holds key (plus 1 c) w.failures u), ground (arith, h t))

later_failures :
    (key : ℕ) (c : Counter) (ts : List ℕ) (w : World)
    → Answers w.redis
    → Holds key c w.failures
    → All (λ t. is_live t c ≡ true) ts
    → 1 ≤ c.count
    → (Holds key (plus (length ts) c) (fail_at key ts w).failures)
      × ((fail_at key ts w).redis ≡ w.redis)
unfolding fail_at
later_failures key c [] w up h live some_count = (λ u. ground (arith, h u), refl)
later_failures key c (t ∷ ts) w up h (l, live) some_count =
    let (kept, same) = next_failure key t c w up h l some_count in
    let (all, last) =
      later_failures key (plus 1 c) ts (record_failure t key w) (subst Answers (sym same) up) kept
        live (omega arith) in
    (λ u. ground (arith, all u), last ∙ same)

abbrev first_counter : Bool → ℕ → Counter
first_counter throws t = record {
  count = 1;
  expires_at = if throws then none else some (t + lockout_ttl_ms);
}

first_failure :
    (key t : ℕ) (w : World)
    → Answers w.redis
    → get_counter t key w.failures ≡ none
    → (Holds key (first_counter w.redis.expire_throws t) (record_failure t key w).failures)
      × ((record_failure t key w).redis ≡ w.redis)
unfolding record_failure
first_failure key t w (a, (b, d)) missing = elim (Bool-cases w.redis.expire_throws) [
  | inl throws ↦
      (λ u. ground (arith, put_counter-Holds key (first_counter true t) w.failures u), ground arith)
  | inr sets ↦ (
    λ u. ground (
      arith,
      put_counter-Holds key (first_counter false t)
          (put_counter key (first_counter true t) w.failures) u,
    ),
    ground arith,
  )
]

check_of_Holds :
    (key now : ℕ) (c : Counter) (w : World)
    → Answers w.redis
    → Holds key c w.failures
    → (check_lockout now key w).0
      ≡ (if is_live now c && leb 5 c.count then err (app_error 429) else ok tt)
unfolding check_lockout
check_of_Holds key now c w (a, (b, d)) h = ground (arith, h now)

live_before :
    (at : ℕ) (ts : List ℕ)
    → All (λ t. t < at) ts
    → All (λ t. is_live t (record { count = 1; expires_at = some at }) ≡ true) ts
live_before at [] h = tt
live_before at (t ∷ ts) (l, h) = (ground arith, live_before at ts h)

always_live :
    (ts : List ℕ) → All (λ t. is_live t (record { count = 1; expires_at = none }) ≡ true) ts
always_live [] = tt
always_live (t ∷ ts) = (refl, always_live ts)

-- With Redis answering, an address without a counter that fails at `t0`, and then at the times `ts`,
-- all within fifteen minutes of `t0`, is blocked with 429 from its fifth failure on, until fifteen
-- minutes after the first, and at no other time.
pub lockout_exact :
    (key t0 now : ℕ) (ts : List ℕ) (w : World)
    → Answers w.redis
    → w.redis.expire_throws ≡ false
    → get_counter t0 key w.failures ≡ none
    → All (λ t. t < t0 + lockout_ttl_ms) ts
    → (check_lockout now key (fail_at key (t0 ∷ ts) w)).0 ≡ (
        if ltb now (t0 + lockout_ttl_ms) && leb 5 (suc (length ts))
        then err (app_error 429)
        else ok tt)
unfolding fail_at
lockout_exact key t0 now ts w up sets missing soon =
    let c = first_counter false t0 in
    let (h, same) = first_failure key t0 w up missing in
    let counted : Holds key c (record_failure t0 key w).failures =
      subst (λ b. Holds key (first_counter b t0) (record_failure t0 key w).failures) sets h in
    let (all, last) =
      later_failures key c ts (record_failure t0 key w) (subst Answers (sym same) up) counted
        (live_before (t0 + lockout_ttl_ms) ts soon) (omega arith) in
    ground (
      arith,
      check_of_Holds key now (plus (length ts) c) (fail_at key (t0 ∷ ts) w)
          (subst Answers (sym (last ∙ same)) up) all,
    )

-- A lockout can last for ever: where the `EXPIRE` of the first failure throws, the counter has no
-- expiry, and after four more failures, whenever they come, the address is blocked at every time.
pub lockout_sticks :
    (key t0 now : ℕ) (ts : List ℕ) (w : World)
    → Answers w.redis
    → w.redis.expire_throws ≡ true
    → get_counter t0 key w.failures ≡ none
    → 4 ≤ length ts
    → (check_lockout now key (fail_at key (t0 ∷ ts) w)).0 ≡ err (app_error 429)
unfolding fail_at
lockout_sticks key t0 now ts w up throws missing enough =
    let c = first_counter true t0 in
    let (h, same) = first_failure key t0 w up missing in
    let counted : Holds key c (record_failure t0 key w).failures =
      subst (λ b. Holds key (first_counter b t0) (record_failure t0 key w).failures) throws h in
    let (all, last) =
      later_failures key c ts (record_failure t0 key w) (subst Answers (sym same) up) counted
        (always_live ts) (omega arith) in
    ground (
      arith,
      check_of_Holds key now (plus (length ts) c) (fail_at key (t0 ∷ ts) w)
          (subst Answers (sym (last ∙ same)) up) all,
    )
