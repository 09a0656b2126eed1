-- ===== src/Messaging/Lifecycle.antt =====
-- A message from its first delivery to its end: each retry comes back as a new delivery, and so does
-- what was not settled.
use lakira_backend.Base.{
  ℕ, zero, suc, ◌+◌, ◌-◌, ◌≤◌, ◌<◌, ◌≡◌, ◌∙◌, inl, inr, Bool, true, false, ◌&&◌, Option, none, some,
  List, [], ◌∷◌, sym, ap, if◌then◌else◌, arith, leb, Bool-cases,
}
use lakira_backend.Store.{Failure}
use lakira_backend.Messaging.RetryPolicy.{
  read_retry_count, is_terminal_message_error, decide_on_failure, retry_delay_ms,
}
use lakira_backend.Messaging.Consumer.{
  Delivery, ConsumerOptions, Settlement, acked, parked, retried, unsettled, has_no_id, republished,
  on_failure, handle,
}
use lakira_backend.Messaging.Bounds.{read_retry_count-print_count, retry_delay_bounds}

-- How a copy of a message ends.
pub data Ending : Type 0 where
  completed in_parking : Ending

-- What the outside decides at each delivery: how the handler ends, whether the broker takes the
-- republished message, and whether the channel takes an ack or a nack.
pub record Outside : Type 0 where
  pub outcome : ℕ → Option Failure
  pub publishes : ℕ → Bool
  pub settles : ℕ → Bool

abbrev pub ended : Ending → Option (ℕ × List Ending) → Option (ℕ × List Ending)
ended e none = none
ended e (some (n, es)) = some (n, e ∷ es)

-- What an error makes of a delivery: it is parked, or republished with the count one higher.
data AfterFailure (options : ConsumerOptions) (d : Delivery) (s : Settlement) : Type 0 where
  parks : s ≡ parked → AfterFailure options d s
  republishes :
      s
        ≡ retried
            (retry_delay_ms (read_retry_count d.retry_header) options.retry_base_delay_ms)
            (republished (suc (read_retry_count d.retry_header)) d)
      → read_retry_count d.retry_header < options.max_retries
      → AfterFailure options d s

-- A message that is republished, after an error that is not terminal, carries a count that its next
-- delivery reads as one more, under the same id; there were retries left, and the delay is the
-- policy's for the count that was read, at most five minutes.
pub on_failure_counts :
    (options : ConsumerOptions) (publishes : Bool) (d d' : Delivery) (error : Failure) (delay : ℕ)
    → on_failure options publishes d (read_retry_count d.retry_header) error ≡ retried delay d'
    → (read_retry_count d'.retry_header ≡ suc (read_retry_count d.retry_header))
      × (d'.message_id ≡ d.message_id)
      × (has_no_id d.message_id ≡ false)
      × (is_terminal_message_error error ≡ false)
      × (read_retry_count d.retry_header < options.max_retries)
      × (delay ≡ retry_delay_ms (read_retry_count d.retry_header) options.retry_base_delay_ms)
      × (delay ≤ 300000)
unfolding on_failure decide_on_failure
on_failure_counts options publishes d d' error delay e =
    let count = read_retry_count d.retry_header in
    let back = read_retry_count-print_count (suc count) in
    let bound = (retry_delay_bounds count options.retry_base_delay_ms).0 in
    elim (Bool-cases (is_terminal_message_error error)) [
      | inl terminal ↦ absurd (ground arith)
      | inr transient ↦ elim (Bool-cases (leb options.max_retries count)) [
        | inl spent ↦ absurd (ground arith)
        | inr left ↦ elim (Bool-cases (has_no_id d.message_id)) [
          | inl nameless ↦ absurd (ground arith)
          | inr named ↦ elim (Bool-cases (d.content_is_json && publishes)) [
            | inr lost ↦ absurd (ground arith)
            | inl sent ↦
                let made : retried (retry_delay_ms count options.retry_base_delay_ms)
                      (republished (suc count) d)
                    ≡ retried delay d' =
                  ground arith in
                let same : republished (suc count) d ≡ d' = cc in
                let waits : retry_delay_ms count options.retry_base_delay_ms ≡ delay = cc in
                (
                  ap (λ (x : Delivery). read_retry_count x.retry_header) (sym same) ∙ back,
                  ap (λ (x : Delivery). x.message_id) (sym same),
                  named,
                  transient,
                  ground arith,
                  sym waits,
                  omega arith,
                )
          ]
        ]
      ]
    ]

-- One delivery more than the retries that the headers leave.
unfoldable pub deliveries_left : ConsumerOptions → List Delivery → ℕ
deliveries_left options [] = 0
deliveries_left options (d ∷ ds) =
    suc (options.max_retries - read_retry_count d.retry_header) + deliveries_left options ds

below : (m c : ℕ) → leb m c ≡ false → c < m
below m c h = ground arith

module _ (options : ConsumerOptions) (outside : Outside) where
  -- Delivery number `k` and those after it, of copies that are followed one after the other: how many
  -- there were, and how the copies ended. `none` is that the fuel ran out.
  pub deliver : ℕ → ℕ → List Delivery → Option (ℕ × List Ending)
  deliver fuel k [] = some (k, [])
  deliver zero k (d ∷ ds) = none
  deliver (suc fuel) k (d ∷ ds) =
      elim (handle options (outside.publishes k) (outside.settles k) d (outside.outcome k)) [
        | acked ↦ ended completed (deliver fuel (suc k) ds)
        | parked ↦ ended in_parking (deliver fuel (suc k) ds)
        | retried delay d' ↦ deliver fuel (suc k) (d' ∷ ds)
        | unsettled copy ↦ elim copy [
          | none ↦ deliver fuel (suc k) (d ∷ ds)
          | some d' ↦ deliver fuel (suc k) (d ∷ d' ∷ ds)
        ]
      ]

  -- As many deliveries for each of the `n` from `k` on that is not settled.
  unfoldable pub unsettled_cost : ℕ → ℕ → ℕ
  unsettled_cost k zero = 0
  unsettled_cost k (suc n) =
      (if outside.settles k then 0 else suc options.max_retries) + unsettled_cost (suc k) n

  -- The step from a delivery to the next.
  data AfterDelivery (k : ℕ) (d : Delivery) : Type 0 where
    ends :
        (e : Ending)
        → ((fuel : ℕ) (ds : List Delivery)
            → deliver (suc fuel) k (d ∷ ds) ≡ ended e (deliver fuel (suc k) ds))
        → AfterDelivery k d
    again :
        read_retry_count d.retry_header < options.max_retries
        → ((fuel : ℕ) (ds : List Delivery)
            → deliver (suc fuel) k (d ∷ ds)
              ≡ deliver fuel (suc k) (republished (suc (read_retry_count d.retry_header)) d ∷ ds))
        → AfterDelivery k d
    lost :
        outside.settles k ≡ false
        → ((fuel : ℕ) (ds : List Delivery)
            → deliver (suc fuel) k (d ∷ ds) ≡ deliver fuel (suc k) (d ∷ ds))
        → AfterDelivery k d
    doubled :
        outside.settles k ≡ false
        → read_retry_count d.retry_header < options.max_retries
        → ((fuel : ℕ) (ds : List Delivery)
            → deliver (suc fuel) k (d ∷ ds)
              ≡ deliver fuel
                  (suc k)
                  (d ∷ republished (suc (read_retry_count d.retry_header)) d ∷ ds))
        → AfterDelivery k d

  retried_once :
      (k : ℕ) (d : Delivery) (e : Failure)
      → outside.outcome k ≡ some e
      → is_terminal_message_error e ≡ false
      → outside.publishes k ≡ true
      → outside.settles k ≡ true
      → has_no_id d.message_id ≡ false
      → d.content_is_json ≡ true
      → leb options.max_retries (read_retry_count d.retry_header) ≡ false
      → (fuel : ℕ)
      → deliver (suc fuel) k (d ∷ [])
        ≡ deliver fuel (suc k) (republished (suc (read_retry_count d.retry_header)) d ∷ [])
  unfolding deliver handle on_failure decide_on_failure
  retried_once k d e failed transient takes settles named json left fuel = ground arith

  -- A message that always fails on an error that is not terminal is delivered exactly once more
  -- than the retries that its header leaves it, and then parked. It has an id and JSON content, the
  -- broker takes each republished message, and the channel each ack and nack.
  pub deliver_exhausts :
      ((k : ℕ)
        → (e : Failure) × (outside.outcome k ≡ some e) × (is_terminal_message_error e ≡ false))
      → ((k : ℕ) → outside.publishes k ≡ true)
      → ((k : ℕ) → outside.settles k ≡ true)
      → (fuel k : ℕ) (d : Delivery) → has_no_id d.message_id ≡ false
      → d.content_is_json ≡ true
      → options.max_retries < fuel + read_retry_count d.retry_header
      → 0 < fuel
      → deliver fuel k (d ∷ [])
        ≡ some (suc (k + (options.max_retries - read_retry_count d.retry_header)), in_parking ∷ [])
  unfolding deliver handle on_failure decide_on_failure
  deliver_exhausts fails takes settles zero k d named json enough some_fuel = elim some_fuel [ ]
  deliver_exhausts fails takes settles (suc fuel) k d named json enough some_fuel =
      let (e, failed, transient) = fails k in
      let next = republished (suc (read_retry_count d.retry_header)) d in
      let count : read_retry_count next.retry_header ≡ suc (read_retry_count d.retry_header) =
        read_retry_count-print_count (suc (read_retry_count d.retry_header)) in
      elim (Bool-cases (leb options.max_retries (read_retry_count d.retry_header))) [
        | inl spent ↦ ground (arith, settles k)
        | inr left ↦
            let rest =
              deliver_exhausts fails takes settles fuel (suc k) next named json (ground arith)
                (ground arith) in
            retried_once k d e failed transient (takes k) (settles k) named json left fuel
            ∙ rest
            ∙ ap (λ (n : ℕ). some (suc n, in_parking ∷ []))
                (omega (
                  arith,
                  count,
                  below (options.max_retries) (read_retry_count d.retry_header) left,
                ))
      ]
