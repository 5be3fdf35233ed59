-- ===== src/Dequeuer/Publishing.antt =====
-- One attempt to publish a row, and the delay until the next one. A `Duration` is a signed count of
-- nanoseconds.
use proofplane.Prelude.{
  ℕ, suc, ◌+◌, ◌-◌, ◌*◌, ◌^◌, Bool, ◌&&◌, Option, none, some, List, [], ◌∷◌, ltb, leb, ◌==◌,
  if◌then◌else◌, is_none, map_some, ℤ, pos, negsuc, int_le, negate, int_times, wrap_i32,
}
use proofplane.Text.{Text, codes}
use proofplane.Domain.Ids.{DateTime}
use proofplane.Messaging.Serde.{Serde, optional_uuid}
use proofplane.Messaging.Wire.{kind_value}
use proofplane.Outbox.Rows.{TopicName, OutboxMessage}
use proofplane.Text.Decimal.{decimal}
use proofplane.Validation.Five.{and_some}

abbrev pub Duration : Type 0
Duration = ℤ

pub record OutboxDequeuerConfig : Type 0 where
  pub batch_size : ℕ
  pub max_attempts : ℕ
  pub initial_retry_delay : Duration
  pub max_retry_delay : Duration

abbrev seconds : ℕ → Duration
seconds n = pos (n * 1_000_000_000)

abbrev pub default_config : OutboxDequeuerConfig
default_config = record {
  batch_size = 100;
  max_attempts = 10;
  initial_retry_delay = seconds 1;
  max_retry_delay = seconds 300;
}

-- `clamp(0, 30) as u32`
abbrev pub at_most : ℕ → ℕ → ℕ
at_most bound n = if leb bound n then bound else n

abbrev pub clamp_attempts : ℤ → ℕ
clamp_attempts (pos n) = at_most 30 n
clamp_attempts (negsuc _) = 0

-- The documentation of the crate chrono: a duration has at most `i64::MAX` milliseconds in either direction, and a
-- product out of that range panics, which is `none`.
abbrev pub duration_limit : ℕ
duration_limit = (2 ^ 63 - 1) * 1_000_000

abbrev pub is_duration : ℤ → Bool
is_duration d = int_le (negate duration_limit) d && int_le d (pos duration_limit)

abbrev pub times : Duration → ℤ → Option Duration
times d factor = if is_duration (int_times d factor) then some (int_times d factor) else none

abbrev pub shorter : Duration → Duration → Duration
shorter a b = if int_le a b then a else b

-- `2_i32.pow` wraps around where it overflows; the clamp keeps it in range.
unfoldable pub retry_delay : ℤ → Duration → Duration → Option Duration
retry_delay attempt_count initial max =
    map_some (λ d. shorter d max) (times initial (wrap_i32 (2 ^ clamp_attempts attempt_count)))

-- `now + …`, which panics before the first instant.
abbrev pub later : DateTime → Duration → Option DateTime
later now (pos n) = some (now + n)
later now (negsuc n) = if ltb n now then some (now - suc n) else none

-- What a publisher is given: the bytes of the message.
pub record OutboundMessage : Type 0 where
  pub message_data : List ℕ

module _ {Value : Type 0} (s : Serde Value) where
  -- The object of version 0, by its own keys.
  unfoldable pub legacy_json : OutboxMessage Value → Value
  unfolding decimal optional_uuid
  legacy_json row = s.object_value (
      (codes "outbox_message_id", s.text_value (decimal row.id))
      ∷ (codes "event_type", s.text_value row.event_type)
      ∷ (codes "aggregate_type", s.text_value row.aggregate_type)
      ∷ (codes "aggregate_id", s.text_value row.aggregate_id)
      ∷ (codes "request_id", optional_uuid s row.request_id)
      ∷ (codes "payload", row.payload)
      ∷ [])

  -- The object of the other versions.
  unfoldable pub message_json : OutboxMessage Value → Value
  unfolding kind_value optional_uuid
  message_json row = s.object_value (
      (codes "message_id", s.uuid_value row.message_id)
      ∷ (codes "kind", kind_value s row.message_kind)
      ∷ (codes "type", s.text_value row.message_type)
      ∷ (codes "version", s.number_value row.message_version)
      ∷ (codes "subject", s.text_value row.subject)
      ∷ (codes "correlation_id", optional_uuid s row.correlation_id)
      ∷ (codes "causation_id", optional_uuid s row.causation_id)
      ∷ (codes "payload", row.payload)
      ∷ [])

  unfoldable pub outbound_message : OutboxMessage Value → OutboundMessage
  unfolding legacy_json message_json
  outbound_message row = record {
    message_data =
        s.value_bytes (if row.message_version == 0 then legacy_json row else message_json row);
  }

-- What the publisher answered to a call.
pub record Attempt : Type 0 where
  pub topic : TopicName
  pub message : OutboundMessage
  pub accepted : Bool

-- The answer of the publisher, the text of the error where it fails. It may depend on the calls made
-- before, the latest one first.
abbrev pub Publisher : Type 0
Publisher = List Attempt → TopicName → OutboundMessage → Option Text

pub data PublishOutcome : Type 0 where
  published : PublishOutcome
  failed : Text → DateTime → Bool → PublishOutcome
  -- The instant of the next attempt could not be computed, and the run panics.
  panicked : PublishOutcome

abbrev pub failed_until : Text → Bool → Option DateTime → PublishOutcome
failed_until error exhausted none = panicked
failed_until error exhausted (some at) = failed error at exhausted

unfoldable pub publish_failure :
    {Value : Type 0} → OutboxDequeuerConfig → OutboxMessage Value → DateTime → Text → PublishOutcome
unfolding retry_delay
publish_failure config row now error =
    let exhausted = leb config.max_attempts (row.attempt_count + 1) in
    failed_until error exhausted (
      if exhausted
      then later now config.max_retry_delay
      else and_some
          (retry_delay (pos row.attempt_count) config.initial_retry_delay config.max_retry_delay)
          (later now))

-- The attempt that the publisher answered.
abbrev pub attempt : {Value : Type 0} → Serde Value → OutboxMessage Value → Option Text → Attempt
attempt s row answer = record {
  topic = row.topic;
  message = outbound_message s row;
  accepted = is_none answer;
}

-- The `match` on the answer of the publisher.
unfoldable pub outcome_of :
    {Value : Type 0}
    → OutboxDequeuerConfig
    → OutboxMessage Value
    → DateTime
    → Option Text
    → PublishOutcome
unfolding publish_failure
outcome_of config row now none = published
outcome_of config row now (some error) = publish_failure config row now error

-- The attempt and its answer join the log.
unfoldable pub publish_outbox_row :
    {Value : Type 0}
    → Serde Value
    → Publisher
    → OutboxDequeuerConfig
    → OutboxMessage Value
    → DateTime
    → List Attempt
    → PublishOutcome × List Attempt
unfolding outbound_message outcome_of
publish_outbox_row s publisher config row now log =
    let answer = publisher log row.topic (outbound_message s row) in
    (outcome_of config row now answer, attempt s row answer ∷ log)
