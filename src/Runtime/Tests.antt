-- ===== src/Runtime/Tests.antt =====
-- A probe of two checks of which one hangs, and shutdowns.
use lakira_backend.Base.{ℕ, ◌≡◌, ◌↔◌, refl, true, false, some, List, [], ◌∷◌, ◌++◌, arith}
use lakira_backend.Text.{codes}
use lakira_backend.Runtime.Readiness.{
  CheckStatus, Probe, ProbeEvent, remove_one, run_one, run_all, resolve, statuses, start_run,
  on_call, on_settle, on_time_out, on_finish, step, new_probe, Reach, new, next,
}
use lakira_backend.Runtime.ReadinessLaws.{AreDistinct, AreSpaced, Reach_bounded}
use lakira_backend.Runtime.Shutdown.{ShutdownEvent, shutdown_run, before_signal}
use lakira_backend.Runtime.ShutdownLaws.{has_failed, last_resort, shutdown_exits_once}
use lakira_backend.Runtime.Background.{
  TaskEvent, drain_from, drain_background_tasks, delete_task, without_id, run_in_background,
}

abbrev names : List ℕ
names = 1 ∷ 2 ∷ []

-- The first check answers and the second hangs past its time.
abbrev first_run : Reach names 5000 40 (
    step names 5000 40 ProbeEvent.finish (
      step names 5000 30 (ProbeEvent.time_out 2) (
        step names 5000 20
          (ProbeEvent.settle 1 CheckStatus.ok)
          (step names 5000 10 ProbeEvent.call (new_probe names 5000)))))
first_run =
    next
      (next
        (next (next (new 0) (omega arith) ProbeEvent.call) (omega arith)
          (ProbeEvent.settle 1 CheckStatus.ok))
        (omega arith) (ProbeEvent.time_out 2))
      (omega arith) ProbeEvent.finish

abbrev second_probe : Probe
second_probe = step names 5000 6000 ProbeEvent.call (
    step names 5000 40 ProbeEvent.finish (
      step names 5000 30 (ProbeEvent.time_out 2) (
        step names 5000 20 (ProbeEvent.settle 1 CheckStatus.ok)
          (step names 5000 10 ProbeEvent.call (new_probe names 5000)))))

-- The second run starts the first check alone.
second_probe_in_flight :
    (second_probe.in_flight ≡ 1 ∷ 2 ∷ []) × (second_probe.started_at ≡ 6000 ∷ 10 ∷ [])
unfolding step on_call on_settle on_time_out on_finish start_run run_all run_one resolve statuses
    remove_one
second_probe_in_flight = (refl, refl)

Reach_bounded_example : AreDistinct second_probe.in_flight × AreSpaced 5000 second_probe.started_at
Reach_bounded_example = Reach_bounded names 5000 (next first_run (omega arith) ProbeEvent.call)

abbrev crash : List ShutdownEvent
crash = ShutdownEvent.steps_done ∷ ShutdownEvent.request 1 ∷ []

shutdown_exits_once_example :
    let all = ShutdownEvent.request 0 ∷ (crash ++ last_resort) in
    (c : ℕ) × ((shutdown_run all before_signal).exits ≡ c ∷ [])
    × ((c ≡ 0) ↔ (has_failed all before_signal ≡ false))
shutdown_exits_once_example = shutdown_exits_once 0 crash

-- A task that is started while the drain waits is waited for too.
drained :
    drain_background_tasks false
      ((1, codes "a") ∷ [])
      (TaskEvent.started 2 (codes "b") ∷ TaskEvent.settled 1 ∷ TaskEvent.settled 2 ∷ [])
    ≡ some (0, [])
unfolding drain_background_tasks drain_from delete_task without_id run_in_background
drained = refl

abandoned :
    drain_background_tasks true ((1, codes "a") ∷ []) (TaskEvent.timed_out ∷ [])
    ≡ some (1, (1, codes "a") ∷ [])
unfolding drain_background_tasks drain_from
abandoned = refl
