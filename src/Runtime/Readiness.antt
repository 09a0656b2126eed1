-- ===== src/Runtime/Readiness.antt =====
-- createReadinessProbe as a machine: its closure's variables, and the events that reach it. A
-- check is named by a number.
use lakira_backend.Base.{
  ℕ, ◌-◌, ◌≤◌, Bool, true, false, ◌&&◌, Option, none, some, List, [], ◌∷◌, ◌==◌, leb, ltb, all, any,
  if◌then◌else◌,
}

pub data CheckStatus : Type 0 where
  ok fail : CheckStatus

pub record ReadinessResult : Type 0 where
  pub is_ok : Bool
  pub checks : List (ℕ × CheckStatus)

-- A run of the checks: what `Promise.all` waits for, and what has come in.
abbrev pub Run : Type 0
Run = List (ℕ × Option CheckStatus)

pub record Cached : Type 0 where
  pub at : ℕ
  pub result : ReadinessResult

-- The variables `cached`, `running` and `unsettled`. Beside them, what only a proof reads: the
-- checks that were started and have not settled, one entry for each time that one was started,
-- and the times at which runs were started, the latest first.
pub record Probe : Type 0 where
  pub cached : Option Cached
  pub running : Option Run
  pub unsettled : List ℕ
  pub in_flight : List ℕ
  pub started_at : List ℕ

pub data ProbeEvent : Type 0 where
  call : ProbeEvent
  settle : ℕ → CheckStatus → ProbeEvent
  time_out : ℕ → ProbeEvent
  finish : ProbeEvent

abbrev pub is_among : ℕ → List ℕ → Bool
is_among n names = any (λ m. m == n) names

-- Removes one entry.
unfoldable pub remove_one : ℕ → List ℕ → List ℕ
remove_one n [] = []
remove_one n (m ∷ ms) = if m == n then ms else m ∷ remove_one n ms

abbrev pub is_ok_status : CheckStatus → Bool
is_ok_status CheckStatus.ok = true
is_ok_status CheckStatus.fail = false

-- `runOne` for each name: a check that still hangs fails at once and is not started.
unfoldable pub run_one : ℕ → Probe → Probe × Option CheckStatus
run_one name p =
    if is_among name p.unsettled
    then (p, some CheckStatus.fail)
    else (record p { unsettled = name ∷ p.unsettled; in_flight = name ∷ p.in_flight }, none)

unfoldable pub run_all : List ℕ → Probe → Probe × Run
run_all [] p = (p, [])
run_all (name ∷ names) p =
    let (p', status) = run_one name p in
    let (p'', rest) = run_all names p' in (p'', (name, status) ∷ rest)

-- The first answer to a check of the run is kept.
unfoldable pub resolve : ℕ → CheckStatus → Run → Run
resolve name status [] = []
resolve name status ((n, none) ∷ run) =
    (n, if n == name then some status else none) ∷ resolve name status run
resolve name status ((n, some s) ∷ run) = (n, some s) ∷ resolve name status run

-- The statuses, where all are there.
unfoldable pub statuses : Run → Option (List (ℕ × CheckStatus))
statuses [] = some []
statuses ((n, none) ∷ run) = none
statuses ((n, some s) ∷ run) = elim (statuses run) [
  | none ↦ none
  | some rest ↦ some ((n, s) ∷ rest)
]

abbrev pub result_of : List (ℕ × CheckStatus) → ReadinessResult
result_of checks = record { is_ok = all (λ (_, s). is_ok_status s) checks; checks = checks }

abbrev pub on_running : (Run → Run) → Probe → Probe
on_running f p = elim p.running [ none ↦ p | some run ↦ record p { running = some (f run) } ]

-- Age at least 0, and below the window.
abbrev pub is_fresh : ℕ → ℕ → Option Cached → Bool
is_fresh window now none = false
is_fresh window now (some c) = leb c.at now && ltb (now - c.at) window

module _ (names : List ℕ) (window : ℕ) where
  unfoldable pub start_run : ℕ → Probe → Probe
  start_run now p =
      let (p', run) = run_all names p in
      record p' { running = some run; started_at = now ∷ p.started_at }

  unfoldable pub on_call : ℕ → Probe → Probe
  on_call now p =
      if is_fresh window now p.cached
      then p
      else elim p.running [ none ↦ start_run now p | some _ ↦ p ]

  -- A check settles only where it is in flight.
  unfoldable pub on_settle : ℕ → CheckStatus → Probe → Probe
  on_settle name status p =
      if is_among name p.in_flight
      then on_running (resolve name status) (record p {
        unsettled = remove_one name p.unsettled;
        in_flight = remove_one name p.in_flight;
      })
      else p

  unfoldable pub on_time_out : ℕ → Probe → Probe
  on_time_out name p = on_running (resolve name CheckStatus.fail) p

  abbrev pub finish_run : ℕ → Probe → Option (List (ℕ × CheckStatus)) → Probe
  finish_run now p none = p
  finish_run now p (some checks) = record p {
    cached = some (record { at = now; result = result_of checks });
    running = none;
  }

  unfoldable pub on_finish : ℕ → Probe → Probe
  on_finish now p = elim p.running [ none ↦ p | some run ↦ finish_run now p (statuses run) ]

  unfoldable pub step : ℕ → ProbeEvent → Probe → Probe
  step now ProbeEvent.call p = on_call now p
  step now (ProbeEvent.settle name status) p = on_settle name status p
  step now (ProbeEvent.time_out name) p = on_time_out name p
  step now ProbeEvent.finish p = on_finish now p

  -- The promise that a call gives is settled already where the result is fresh.
  unfoldable pub answer : ℕ → Probe → Option ReadinessResult
  answer now p = elim p.cached [
    | none ↦ none
    | some c ↦ if is_fresh window now (some c) then some c.result else none
  ]

  abbrev pub new_probe : Probe
  new_probe = record {
    cached = none;
    running = none;
    unsettled = [];
    in_flight = [];
    started_at = [];
  }

  -- The states that a probe gets to, with the time, which never falls.
  pub data Reach : ℕ → Probe → Type 0 where
    new : (now : ℕ) → Reach now new_probe
    next :
        {now later : ℕ} {p : Probe}
        → Reach now p
        → now ≤ later
        → (e : ProbeEvent) → Reach later (step later e p)
