-- ===== src/Runtime/ShutdownLaws.antt =====
-- How a process exits.
use lakira_backend.Base.{
  ℕ, ◌≡◌, ◌↔◌, ap, ◌∙◌, refl, Bool, true, false, ◌||◌, ◌&&◌, not, List, [], ◌∷◌, ◌++◌, ◌==◌, arith,
}
use lakira_backend.Runtime.Shutdown.{
  Phase, Shutdown, ShutdownEvent, shutdown_step, shutdown_run, before_signal,
}

-- What ends a process badly: a code that is not 0, steps that threw or a deadline that came
-- before the run was over.
abbrev pub is_failure : ShutdownEvent → Phase → Bool
is_failure (ShutdownEvent.request code) phase = not (code == 0)
is_failure ShutdownEvent.steps_threw Phase.stepping = true
is_failure ShutdownEvent.steps_threw Phase.late = true
is_failure ShutdownEvent.deadline Phase.stepping = true
is_failure ShutdownEvent.deadline Phase.flushing = true
is_failure _ _ = false

abbrev is_exited : Phase → Bool
is_exited Phase.exited = true
is_exited _ = false

-- Whether such an event comes before the exit.
unfoldable pub has_failed : List ShutdownEvent → Shutdown → Bool
has_failed [] s = false
has_failed (e ∷ es) s =
    (not (is_exited s.phase) && is_failure e s.phase) || has_failed es (shutdown_step e s)

-- The process exits once, with its code, and has not before.
abbrev Exits : Shutdown → Phase → Type 0
Exits s Phase.exited = s.exits ≡ s.exit_code ∷ []
Exits s _ = s.exits ≡ []

shutdown_step-Exits :
    (e : ShutdownEvent) (s : Shutdown)
    → Exits s s.phase
    → Exits (shutdown_step e s) ((shutdown_step e s).phase)
unfolding shutdown_step
shutdown_step-Exits (ShutdownEvent.request code) s h = ground arith
shutdown_step-Exits ShutdownEvent.steps_done s h = ground arith
shutdown_step-Exits ShutdownEvent.steps_threw s h = ground arith
shutdown_step-Exits ShutdownEvent.flushed s h = ground arith
shutdown_step-Exits ShutdownEvent.deadline s h = ground arith

shutdown_run-Exits :
    (es : List ShutdownEvent) (s : Shutdown)
    → Exits s s.phase
    → Exits (shutdown_run es s) ((shutdown_run es s).phase)
unfolding shutdown_run
shutdown_run-Exits [] s h = h
shutdown_run-Exits (e ∷ es) s h =
    shutdown_run-Exits es (shutdown_step e s) (shutdown_step-Exits e s h)

shutdown_step_code :
    (e : ShutdownEvent) (s : Shutdown)
    → ((shutdown_step e s).exit_code == 0)
      ≡ (s.exit_code == 0 && not (not (is_exited s.phase) && is_failure e s.phase))
unfolding shutdown_step
shutdown_step_code (ShutdownEvent.request code) s = ground arith
shutdown_step_code ShutdownEvent.steps_done s = ground arith
shutdown_step_code ShutdownEvent.steps_threw s = ground arith
shutdown_step_code ShutdownEvent.flushed s = ground arith
shutdown_step_code ShutdownEvent.deadline s = ground arith

shutdown_run_code :
    (es : List ShutdownEvent) (s : Shutdown)
    → ((shutdown_run es s).exit_code == 0) ≡ (s.exit_code == 0 && not (has_failed es s))
unfolding shutdown_run has_failed
shutdown_run_code [] s = ground arith
shutdown_run_code (e ∷ es) s =
    ground (arith, shutdown_step_code e s, shutdown_run_code es (shutdown_step e s))

shutdown_run-append :
    (es fs : List ShutdownEvent) (s : Shutdown)
    → shutdown_run (es ++ fs) s ≡ shutdown_run fs (shutdown_run es s)
unfolding shutdown_run
shutdown_run-append [] fs s = refl
shutdown_run-append (e ∷ es) fs s = shutdown_run-append es fs (shutdown_step e s)

abbrev is_waiting : Phase → Bool
is_waiting Phase.waiting = true
is_waiting _ = false

shutdown_step_begun :
    (e : ShutdownEvent) (s : Shutdown)
    → is_waiting s.phase ≡ false
    → is_waiting ((shutdown_step e s).phase) ≡ false
unfolding shutdown_step
shutdown_step_begun (ShutdownEvent.request code) s h = ground arith
shutdown_step_begun ShutdownEvent.steps_done s h = ground arith
shutdown_step_begun ShutdownEvent.steps_threw s h = ground arith
shutdown_step_begun ShutdownEvent.flushed s h = ground arith
shutdown_step_begun ShutdownEvent.deadline s h = ground arith

first_begun :
    (code : ℕ)
    → is_waiting ((shutdown_step (ShutdownEvent.request code) before_signal).phase) ≡ false
unfolding shutdown_step
first_begun code = refl

shutdown_run_begun :
    (es : List ShutdownEvent) (s : Shutdown)
    → is_waiting s.phase ≡ false
    → is_waiting ((shutdown_run es s).phase) ≡ false
unfolding shutdown_run
shutdown_run_begun [] s h = h
shutdown_run_begun (e ∷ es) s h =
    shutdown_run_begun es (shutdown_step e s) (shutdown_step_begun e s h)

abbrev pub last_resort : List ShutdownEvent
last_resort = ShutdownEvent.deadline ∷ ShutdownEvent.flushed ∷ []

last_resort_exits :
    (s : Shutdown) → is_waiting s.phase ≡ false → (shutdown_run last_resort s).phase ≡ Phase.exited
unfolding shutdown_run shutdown_step
last_resort_exits s h = ground arith

exits_at_end :
    (s : Shutdown) → Exits s s.phase → s.phase ≡ Phase.exited → s.exits ≡ s.exit_code ∷ []
exits_at_end s h e = ground arith

last_resort_end :
    (code : ℕ) (es : List ShutdownEvent)
    → (shutdown_run (ShutdownEvent.request code ∷ (es ++ last_resort)) before_signal).phase
      ≡ Phase.exited
unfolding shutdown_run
last_resort_end code es =
    let first = shutdown_step (ShutdownEvent.request code) before_signal in
    ap (λ (s : Shutdown). s.phase) (shutdown_run-append es last_resort first)
    ∙ last_resort_exits (shutdown_run es first) (shutdown_run_begun es first (first_begun code))

-- Once a shutdown was asked for, and the deadline and the flush after it have come, whatever came
-- between, the process has exited exactly once, with code 0 exactly where, until the exit, every
-- call asked for code 0, the steps did not throw and the deadline did not come first.
pub shutdown_exits_once :
    (code : ℕ) (es : List ShutdownEvent)
    → let all = ShutdownEvent.request code ∷ (es ++ last_resort) in
      (c : ℕ) × ((shutdown_run all before_signal).exits ≡ c ∷ [])
      × ((c ≡ 0) ↔ (has_failed all before_signal ≡ false))
shutdown_exits_once code es =
    let all = ShutdownEvent.request code ∷ (es ++ last_resort) in
    let s = shutdown_run all before_signal in
    let once = shutdown_run-Exits all before_signal refl in
    let at_end : s.phase ≡ Phase.exited = last_resort_end code es in
    let code_lem = shutdown_run_code all before_signal in
    (s.exit_code, exits_at_end s once at_end, ground arith)
