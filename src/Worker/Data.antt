-- ===== src/Worker/Data.antt =====
-- The members of a message of version 0: all that is wrong is reported.
use proofplane.Prelude.{not, Option, none, some, if◌then◌else◌, is_empty}
use proofplane.Text.{Text, trim, codes}
use proofplane.Domain.Ids.{Uuid}
use proofplane.Messaging.Types.{Uuids}
use proofplane.Validation.Five.{validate₅}
use proofplane.Validation.Types.{Validation, valid, invalid}
use proofplane.Worker.Types.{
  missing_field, invalid_request_id, WorkerMessageDataValidationError, WorkerMessageDataDto,
  WorkerMessageData,
}

unfoldable pub required_message_string :
    Text → Option Text → Validation Text WorkerMessageDataValidationError
required_message_string field none = invalid (missing_field field)
required_message_string field (some value) =
    if not (is_empty (trim value)) then valid value else invalid (missing_field field)

unfoldable pub optional_request_id :
    Uuids → Option Text → Validation (Option Uuid) WorkerMessageDataValidationError
optional_request_id u none = valid none
optional_request_id u (some request_id) = elim (u.parse_uuid request_id) [
  | some id ↦ valid (some id)
  | none ↦ invalid invalid_request_id
]

unfoldable pub required_message_value :
    {Value : Type 0} → Text → Option Value → Validation Value WorkerMessageDataValidationError
required_message_value field none = invalid (missing_field field)
required_message_value field (some value) = valid value

unfoldable pub into_message_data :
    {Value : Type 0}
    → Uuids
    → WorkerMessageDataDto Value
    → Validation (WorkerMessageData Value) WorkerMessageDataValidationError
unfolding required_message_string optional_request_id required_message_value
into_message_data u dto =
    validate₅
      (λ event_type aggregate_type aggregate_id request_id payload. record {
        event_type = event_type;
        aggregate_type = aggregate_type;
        aggregate_id = aggregate_id;
        request_id = request_id;
        payload = payload;
      })
      (required_message_string (codes "event_type") dto.event_type)
      (required_message_string (codes "aggregate_type") dto.aggregate_type)
      (required_message_string (codes "aggregate_id") dto.aggregate_id)
      (optional_request_id u dto.request_id) (required_message_value (codes "payload") dto.payload)
