-- ===== src/PasswordReset/OneEmail.antt =====
-- The emails that the runs of one reset message deliver, whoever makes them.
use lakira_backend.Base.{
  ℕ, suc, ◌+◌, ◌≤◌, ◌≡◌, refl, ap, subst, sym, Bool, false, if◌then◌else◌, ◌∙◌, inl, inr, true,
  some, List, [], ◌∷◌, arith, length, Bool-cases,
}
use lakira_backend.Text.{Text}
use lakira_backend.Store.{World, Result, ok, err}
use lakira_backend.Messaging.Idempotency.{
  run_once, IdempotencyOutcome, is_unusable, processed, duplicate, record_key,
}
use lakira_backend.Messaging.Once.{run_once_cases, run_once_again}
use lakira_backend.PasswordReset.Requests.{ResetPorts, ResetDraw, execute_in_transaction}
use lakira_backend.PasswordReset.Laws.{execute-KeepsRecord, execute-outbox}

-- What a run draws, when it runs, and whether its transaction commits where the work succeeds.
pub record JobRun : Type 0 where
  pub draw : ResetDraw
  pub now : ℕ
  pub commits : Bool

-- A run that fails, or whose commit fails, leaves the database as it was; what was sent stays sent.
abbrev pub committed : Bool → World → Result IdempotencyOutcome × World → Bool × World
committed commits w (err e, v) = (false, v)
committed true w (ok o, v) = (true, v)
committed false w (ok o, v) = (false, record v { db = w.db })

module _ (ports : ResetPorts) (message_id : Text) (user_id : ℕ) where
  abbrev attempt : JobRun → World → Result IdempotencyOutcome × World
  attempt r w =
      run_once (some message_id) ports.queue_name
        (execute_in_transaction ports r.draw r.now user_id) w

  -- One run of the job under the message's id, by the worker on a delivery or by the request:
  -- whether it succeeds, and the world that it leaves.
  abbrev pub run_job : JobRun → World → Bool × World
  run_job r w = committed r.commits w (attempt r w)

  -- Any number of runs, in any order.
  pub run_jobs : List JobRun → World → World
  run_jobs [] w = w
  run_jobs (r ∷ rs) w = run_jobs rs (run_job r w).1

  -- How many of them fail.
  pub failed_runs : List JobRun → World → ℕ
  failed_runs [] w = 0
  failed_runs (r ∷ rs) w =
      let rest = failed_runs rs (run_job r w).1 in if (run_job r w).0 then rest else suc rest

  unusable_run :
      (r : JobRun) (w : World) → is_unusable (some message_id) ≡ true → run_job r w ≡ (false, w)
  unfolding run_once
  unusable_run r w h = ground arith

  -- After a run that processed the message every run is a duplicate.
  run_jobs_done :
      (rs : List JobRun) (draw : ResetDraw) (now : ℕ) (w w' : World)
      → run_once
          (some message_id)
          ports.queue_name
          (execute_in_transaction ports draw now user_id)
          w
        ≡ (ok processed, w')
      → run_jobs rs w' ≡ w'
  unfolding run_jobs
  run_jobs_done [] draw now w w' h = refl
  run_jobs_done (r ∷ rs) draw now w w' h =
      let skipped : attempt r w' ≡ (ok duplicate, w') =
        run_once_again message_id ports.queue_name (execute_in_transaction ports draw now user_id)
          (execute_in_transaction ports r.draw r.now user_id) w w'
          (execute-KeepsRecord ports draw now user_id) h in
      ap (λ step. run_jobs rs (committed r.commits w' step).1) skipped
      ∙ ap (run_jobs rs) (same r.commits w')
      ∙ run_jobs_done rs draw now w w' h
    where
      same : (c : Bool) (v : World) → (committed c v (ok duplicate, v)).1 ≡ v
      same true v = refl
      same false v = refl

  -- What is left to prove where a run comes to `step`.
  abbrev AtMostOne : List JobRun → ℕ → Bool × World → Type 0
  AtMostOne rs sent step =
      length (run_jobs rs step.1).outbox
      ≤ suc ((if step.0 then failed_runs rs step.1 else suc (failed_runs rs step.1)) + sent)

  -- However often a password-reset message is delivered, retried and run again by the request's
  -- fallback, under one id, the runs together deliver at most one email more than the runs that
  -- fail: whatever each run draws, whenever it runs, whether a send that throws is delivered all the
  -- same, and whether a commit fails after its send.
  pub run_jobs_one_email :
      (rs : List JobRun) (w : World)
      → length (run_jobs rs w).outbox ≤ suc (failed_runs rs w + length w.outbox)
  unfolding run_jobs failed_runs
  run_jobs_one_email [] w = omega arith
  run_jobs_one_email (r ∷ rs) w =
      let sent = length w.outbox in
      let work = execute_in_transaction ports r.draw r.now user_id in
      let recorded = record w { db = record_key message_id ports.queue_name w.db } in
      let one = execute-outbox ports r.draw r.now user_id recorded in
      elim (Bool-cases (is_unusable (some message_id))) [
        | inl bad ↦
            subst (AtMostOne rs sent) (sym (unusable_run r w bad))
              (omega (arith, run_jobs_one_email rs w))
        | inr usable ↦ elim (run_once_cases message_id ports.queue_name work w usable) [
          | inl (seen, skipped) ↦
              subst (AtMostOne rs sent) (sym (ap (committed r.commits w) skipped))
                (after_duplicate r.commits rs w (run_jobs_one_email rs w))
          | inr (inl (w', new, done, kept)) ↦
              subst (AtMostOne rs sent) (sym (ap (committed r.commits w) kept)) (
                after_processed r.commits rs w w'
                  (omega (arith, one, ap (λ step. length step.1.outbox) done))
                  (run_jobs_done rs r.draw r.now w w' kept)
                  (run_jobs_one_email rs (record w' { db = w.db })))
          | inr (inr (e, w', new, failed, rolled_back)) ↦
              let all = run_jobs_one_email rs (record w' { db = w.db }) in
              subst (AtMostOne rs sent) (sym (ap (committed r.commits w) rolled_back))
                (omega (arith, all, one, ap (λ step. length step.1.outbox) failed))
        ]
      ]
    where
      after_duplicate :
          (c : Bool) (rs : List JobRun) (w : World)
          → length (run_jobs rs w).outbox ≤ suc (failed_runs rs w + length w.outbox)
          → AtMostOne rs (length w.outbox) (committed c w (ok duplicate, w))
      after_duplicate true rs w h = h
      after_duplicate false rs w h = omega arith

      after_processed :
          (c : Bool) (rs : List JobRun) (w w' : World)
          → length w'.outbox ≤ suc (length w.outbox)
          → run_jobs rs w' ≡ w'
          → length (run_jobs rs (record w' { db = w.db })).outbox
            ≤ suc (failed_runs rs (record w' { db = w.db }) + length w'.outbox)
          → AtMostOne rs (length w.outbox) (committed c w (ok processed, w'))
      after_processed true rs w w' one done h = omega (arith, ap (λ v. length v.outbox) done)
      after_processed false rs w w' one done h = omega arith
