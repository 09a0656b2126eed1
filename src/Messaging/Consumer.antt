-- ===== src/Messaging/Consumer.antt =====
-- How RabbitMQConsumer settles one delivery: `handle` and `onFailure` of
-- src/shared/infrastructure/queue/RabbitMQConsumer.ts.
use lakira_backend.Base.{ℕ, Bool, true, false, ◌||◌, not, Option, none, some, if◌then◌else◌}
use lakira_backend.Text.{Text, is_empty}
use lakira_backend.Store.{Failure, plain_error}
use lakira_backend.Messaging.RetryPolicy.{
  FailureDecision, park, retry, read_retry_count, print_count, decide_on_failure,
}

-- A delivery: its messageId if that is a string, `String` of its x-retry-count header if it has
-- one, and whether its content is JSON.
pub record Delivery : Type 0 where
  pub message_id : Option Text
  pub retry_header : Option Text
  pub content_is_json : Bool

pub record ConsumerOptions : Type 0 where
  pub max_retries : ℕ
  pub retry_base_delay_ms : ℕ

-- What becomes of a delivery: acked for good; nacked without requeue, which parks it; republished to
-- the retry queue of a delay and then acked; or, where the channel closes under the ack or the nack,
-- neither, so that the broker delivers it again as it is, beside what was republished.
pub data Settlement : Type 0 where
  acked : Settlement
  parked : Settlement
  retried : (delay_ms : ℕ) → Delivery → Settlement
  unsettled : Option Delivery → Settlement

-- `typeof messageId !== "string" || messageId.length === 0`
abbrev pub has_no_id : Option Text → Bool
has_no_id none = true
has_no_id (some id) = is_empty id

abbrev pub republished : ℕ → Delivery → Delivery
republished next_retry_count d = record d { retry_header = some (print_count next_retry_count) }

-- `publishes` is whether the broker took the republished message.
abbrev pub settle_decision : Bool → Delivery → FailureDecision → Settlement
settle_decision publishes d (park reason) = parked
settle_decision publishes d (retry next_retry_count delay_ms) =
    if has_no_id d.message_id
    then parked
    else if not d.content_is_json || not publishes
    then parked
    else retried delay_ms (republished next_retry_count d)

unfoldable pub on_failure : ConsumerOptions → Bool → Delivery → ℕ → Failure → Settlement
on_failure options publishes d retry_count error =
    settle_decision publishes d
      (decide_on_failure error retry_count options.max_retries options.retry_base_delay_ms)

-- The last `catch`: the channel closed under an ack or a nack.
abbrev pub settled : Bool → Settlement → Settlement
settled true s = s
settled false (retried delay_ms d) = unsettled (some d)
settled false _ = unsettled none

-- `handle`, given how the handler ended, where `none` is a success, and whether the channel takes an
-- ack or a nack. An ack that throws is a failure like any other.
unfoldable pub handle :
    ConsumerOptions → (publishes settles : Bool) → Delivery → Option Failure → Settlement
handle options publishes settles d none =
    if settles
    then acked
    else settled false
        (on_failure options publishes d (read_retry_count d.retry_header) plain_error)
handle options publishes settles d (some error) =
    settled settles (on_failure options publishes d (read_retry_count d.retry_header) error)
