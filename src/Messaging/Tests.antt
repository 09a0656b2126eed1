-- ===== src/Messaging/Tests.antt =====
-- The theorems on the queue at small inputs, and runs of it.
use lakira_backend.Base.{
  suc, ◌+◌, ◌-◌, ◌≤◌, ◌<◌, ◌==◌, not, false, ◌≡◌, refl, true, none, some, [], ◌∷◌, arith,
}
use lakira_backend.Store.{World, Action, send_failed, ok, pure, throw}
use lakira_backend.Samples.{small_world}
use lakira_backend.Messaging.RetryPolicy.{
  retry_delay_ms, retry_delays_ms, delays_from, read_retry_count, is_terminal_message_error,
  decide_on_failure,
}
use lakira_backend.Messaging.Consumer.{
  Delivery, ConsumerOptions, retried, republished, has_no_id, on_failure,
}
use lakira_backend.Messaging.Lifecycle.{
  Outside, in_parking, deliver, on_failure_counts, deliver_exhausts,
}
use lakira_backend.Messaging.Idempotency.{run_once, was_processed, processed, duplicate, record_key}
use lakira_backend.Messaging.Once.{run_once_again, run_once_failed}

three_delays : retry_delays_ms 5 100_000 ≡ 100_000 ∷ 200_000 ∷ 300_000 ∷ []
unfolding retry_delays_ms delays_from retry_delay_ms
three_delays = refl

abbrev failing : Outside
failing = record { outcome = λ k. some send_failed; publishes = λ k. true; settles = λ k. true }

-- The channel closes under the first ack.
abbrev closing : Outside
closing = record {
  outcome = λ k. some send_failed;
  publishes = λ k. true;
  settles = λ k. not (k == 0);
}

abbrev options : ConsumerOptions
options = record { max_retries = 3; retry_base_delay_ms = 5000 }

abbrev first_delivery : Delivery
first_delivery = record { message_id = some (49 ∷ []); retry_header = none; content_is_json = true }

abbrev second_delivery : Delivery
second_delivery = republished 1 first_delivery

republished_run :
    on_failure options true first_delivery (read_retry_count none) send_failed
    ≡ retried 5000 second_delivery
unfolding on_failure decide_on_failure read_retry_count retry_delay_ms
republished_run = refl

on_failure_counts_example :
    (read_retry_count second_delivery.retry_header ≡ suc (read_retry_count none))
    × (second_delivery.message_id ≡ some (49 ∷ []))
    × (has_no_id (some (49 ∷ [])) ≡ false)
    × (is_terminal_message_error send_failed ≡ false)
    × (read_retry_count none < 3)
    × (5000 ≡ retry_delay_ms (read_retry_count none) 5000)
    × (5000 ≤ 300000)
on_failure_counts_example =
    on_failure_counts options true first_delivery second_delivery send_failed 5000 republished_run

deliver_exhausts_example :
    deliver options failing 4 0 (first_delivery ∷ [])
    ≡ some (suc (0 + (3 - read_retry_count none)), in_parking ∷ [])
unfolding read_retry_count
deliver_exhausts_example =
    deliver_exhausts options failing (λ k. (send_failed, refl, refl)) (λ k. refl) (λ k. refl) 4 0
      first_delivery refl refl (omega arith) (omega arith)

abbrev nothing_to_do : Action (Unit {0})
nothing_to_do = pure tt

abbrev fails_to_send : Action (Unit {0})
fails_to_send = throw send_failed

abbrev recorded : World
recorded = record small_world { db = record_key (49 ∷ []) (50 ∷ []) small_world.db }

run_once_again_example :
    run_once (some (49 ∷ [])) (50 ∷ []) fails_to_send recorded ≡ (ok duplicate, recorded)
unfolding run_once was_processed
run_once_again_example =
    run_once_again (49 ∷ []) (50 ∷ []) nothing_to_do fails_to_send small_world recorded
      (record { keeps = λ w. refl }) refl

run_once_failed_example :
    (small_world.db ≡ small_world.db)
    × ((v : World)
        → nothing_to_do recorded ≡ (ok tt, v)
        → run_once (some (49 ∷ [])) (50 ∷ []) nothing_to_do small_world ≡ (ok processed, v))
unfolding run_once was_processed
run_once_failed_example =
    run_once_failed (49 ∷ []) (50 ∷ []) fails_to_send nothing_to_do small_world small_world
      send_failed refl refl
