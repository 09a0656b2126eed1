-- ===== src/Messaging/Once.antt =====
-- Runs of a job under one message id and queue (SequelizeMessageIdempotency).
use lakira_backend.Base.{◌≡◌, refl, ap, ◌∙◌, ◌⊎◌, inl, inr, true, false, some, arith, Bool-cases}
use lakira_backend.Text.{Text, text_eq_refl}
use lakira_backend.Store.{Db, World, Action, Failure, ok, err, Step-cases}
use lakira_backend.Messaging.Idempotency.{
  processed, duplicate, is_unusable, was_processed, record_key, run_once,
}

-- The work neither removes the record of a processed message nor forges one.
pub record KeepsRecord (work : Action (Unit {0})) : Type 0 where
  pub keeps : (w : World) → (work w).1.db.processed ≡ w.db.processed

-- How a call with a usable id ends: the message was processed before and nothing is done; or the
-- work ran once, on the world with the key recorded, and either everything is kept, or it failed
-- and the database is as before.
pub run_once_cases :
    (message_id queue : Text) (work : Action (Unit {0})) (w : World)
    → is_unusable (some message_id) ≡ false
    → ((was_processed message_id queue w.db ≡ true)
        × (run_once (some message_id) queue work w ≡ (ok duplicate, w)))
      ⊎ ((w' : World) × (was_processed message_id queue w.db ≡ false)
          × (work (record w { db = record_key message_id queue w.db }) ≡ (ok tt, w'))
          × (run_once (some message_id) queue work w ≡ (ok processed, w')))
      ⊎ ((e : Failure) × (w' : World) × (was_processed message_id queue w.db ≡ false)
          × (work (record w { db = record_key message_id queue w.db }) ≡ (err e, w'))
          × (run_once (some message_id) queue work w ≡ (err e, record w' { db = w.db })))
unfolding run_once
run_once_cases message_id queue work w usable =
    elim (Bool-cases (was_processed message_id queue w.db)) [
      | inl seen ↦ inl (seen, ground arith)
      | inr new ↦ elim (Step-cases (work (record w { db = record_key message_id queue w.db }))) [
        | inl (u, w', done) ↦ inr (inl (w', new, ground arith, ground arith))
        | inr (e, w', failed) ↦ inr (inr (e, w', new, failed, ground arith))
      ]
    ]

pub was_processed-record_key : (i q : Text) (d : Db) → was_processed i q (record_key i q d) ≡ true
unfolding was_processed
was_processed-record_key i q d = ground (arith, text_eq_refl i, text_eq_refl q)

pub same_record :
    (i q : Text) (d d' : Db)
    → d'.processed ≡ d.processed
    → was_processed i q d' ≡ was_processed i q d
unfolding was_processed
same_record i q d d' e = rw e refl

seen_is_skipped :
    (i q : Text) (work : Action (Unit {0})) (w : World)
    → is_unusable (some i) ≡ false
    → was_processed i q w.db ≡ true
    → run_once (some i) q work w ≡ (ok duplicate, w)
unfolding run_once
seen_is_skipped i q work w usable seen = ground arith

new_is_run :
    (i q : Text) (work : Action (Unit {0})) (w v : World)
    → is_unusable (some i) ≡ false
    → was_processed i q w.db ≡ false
    → work (record w { db = record_key i q w.db }) ≡ (ok tt, v)
    → run_once (some i) q work w ≡ (ok processed, v)
unfolding run_once
new_is_run i q work w v usable new done = ground arith

processed_is_usable :
    (i q : Text) (work : Action (Unit {0})) (w w' : World)
    → run_once (some i) q work w ≡ (ok processed, w')
    → is_unusable (some i) ≡ false
unfolding run_once
processed_is_usable i q work w w' h = ground arith

-- Whichever of two runs of a message comes second does nothing: after a run that processed the
-- message, any work under the same id and queue is skipped as a duplicate and the world stays as it
-- is, as long as the work of the first run keeps the record of processed messages.
pub run_once_again :
    (message_id queue : Text) (first second : Action (Unit {0})) (w w' : World)
    → KeepsRecord first
    → run_once (some message_id) queue first w ≡ (ok processed, w')
    → run_once (some message_id) queue second w' ≡ (ok duplicate, w')
run_once_again message_id queue first second w w' k h =
    let usable = processed_is_usable message_id queue first w w' h in
    elim (run_once_cases message_id queue first w usable) [
      | inl (seen, skipped) ↦ cc
      | inr (inr (e, v, new, failed, rolled_back)) ↦ cc
      | inr (inl (v, new, done, kept)) ↦
          let recorded = record w { db = record_key message_id queue w.db } in
          let same : v ≡ w' = ground arith in
          let log : w'.db.processed ≡ recorded.db.processed =
            cc (ap (λ s. s.1.db.processed) done, k.keeps recorded, ap (λ u. u.db.processed) same) in
          seen_is_skipped message_id queue second w' usable (
            same_record message_id queue recorded.db w'.db log
            ∙ was_processed-record_key message_id queue w.db)
    ]

-- A run that fails leaves the database as it was, without the message's record, so that a retry
-- runs the work again.
pub run_once_failed :
    (message_id queue : Text) (work retry : Action (Unit {0})) (w w' : World) (e : Failure)
    → is_unusable (some message_id) ≡ false
    → run_once (some message_id) queue work w ≡ (err e, w')
    → (w'.db ≡ w.db)
      × ((v : World)
          → retry (record w' { db = record_key message_id queue w.db }) ≡ (ok tt, v)
          → run_once (some message_id) queue retry w' ≡ (ok processed, v))
run_once_failed message_id queue work retry w w' e usable h =
    elim (run_once_cases message_id queue work w usable) [
      | inl (seen, skipped) ↦ cc
      | inr (inl (v, new, done, kept)) ↦ cc
      | inr (inr (f, v, new, failed, rolled_back)) ↦
          let same : w' ≡ record v { db = w.db } = cc (h, rolled_back) in
          (
            ap (λ u. u.db) same,
            rw same (λ u done.
                new_is_run message_id queue retry (record v { db = w.db }) u usable new done),
          )
    ]
