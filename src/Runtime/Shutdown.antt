-- ===== src/Runtime/Shutdown.antt =====
-- createShutdown as a machine: the run that the first signal starts, and what may happen while it
-- goes on. The log lines are left out.
use lakira_backend.Base.{ℕ, List, [], ◌∷◌, ◌==◌, if◌then◌else◌}

abbrev pub shutdown_timeout_ms : ℕ
shutdown_timeout_ms = 25000

abbrev pub deadline_flush_timeout_ms : ℕ
deadline_flush_timeout_ms = 1000

-- Before a signal; the steps run; they are over and the log is flushed; the deadline has passed
-- and the log is flushed once more; the process has exited.
pub data Phase : Type 0 where
  waiting stepping flushing late exited : Phase

-- `exitCode` and `running`, and the codes that `exit` was called with, the latest first.
pub record Shutdown : Type 0 where
  pub phase : Phase
  pub exit_code : ℕ
  pub exits : List ℕ

pub data ShutdownEvent : Type 0 where
  -- A signal or a crash, with its code.
  request : ℕ → ShutdownEvent
  steps_done steps_threw flushed deadline : ShutdownEvent

-- `exitCode || code`
abbrev pub code_or : ℕ → ℕ → ℕ
code_or a b = if a == 0 then b else a

abbrev pub exit_now : Shutdown → Shutdown
exit_now s = record s { phase = Phase.exited; exits = s.exit_code ∷ s.exits }

abbrev pub begun : Phase → Phase
begun Phase.waiting = Phase.stepping
begun phase = phase

-- The deadline wins the race only while the run is not over.
abbrev pub on_deadline : Shutdown → Phase → Shutdown
on_deadline s Phase.stepping = record s { phase = Phase.late; exit_code = code_or s.exit_code 1 }
on_deadline s Phase.flushing = record s { phase = Phase.late; exit_code = code_or s.exit_code 1 }
on_deadline s _ = s

-- The flush that ends the run in time, or the one after the deadline.
abbrev pub on_flushed : Shutdown → Phase → Shutdown
on_flushed s Phase.flushing = exit_now s
on_flushed s Phase.late = exit_now s
on_flushed s _ = s

-- The steps may end after the deadline, when only their failure is noted.
abbrev pub on_steps : Shutdown → ℕ → Phase → Shutdown
on_steps s code Phase.stepping = record s {
  phase = Phase.flushing;
  exit_code = code_or s.exit_code code;
}
on_steps s code Phase.late = record s { exit_code = code_or s.exit_code code }
on_steps s code _ = s

abbrev pub on_request : Shutdown → ℕ → Phase → Shutdown
on_request s code Phase.exited = s
on_request s code phase = record s { phase = begun phase; exit_code = code_or s.exit_code code }

unfoldable pub shutdown_step : ShutdownEvent → Shutdown → Shutdown
shutdown_step (ShutdownEvent.request code) s = on_request s code s.phase
shutdown_step ShutdownEvent.steps_done s = on_steps s 0 s.phase
shutdown_step ShutdownEvent.steps_threw s = on_steps s 1 s.phase
shutdown_step ShutdownEvent.flushed s = on_flushed s s.phase
shutdown_step ShutdownEvent.deadline s = on_deadline s s.phase

unfoldable pub shutdown_run : List ShutdownEvent → Shutdown → Shutdown
shutdown_run [] s = s
shutdown_run (e ∷ es) s = shutdown_run es (shutdown_step e s)

abbrev pub before_signal : Shutdown
before_signal = record { phase = Phase.waiting; exit_code = 0; exits = [] }
