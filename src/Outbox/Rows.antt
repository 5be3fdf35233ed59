-- ===== src/Outbox/Rows.antt =====
-- The rows of the table `outbox_messages`, and the values that are read from them.
use proofplane.Prelude.{
  ℕ, ◌≡◌, refl, sym, ap, Option, if◌then◌else◌, Result, ok, err, ◌>>=◌, bind-ok, ok-injective,
}
use proofplane.Text.{Text, text_eq, codes}
use proofplane.Domain.Ids.{Uuid, DateTime}
use proofplane.Messaging.Types.{
  IntegrationMessage, IntegrationMessageKind, kind_as_str, command, event, scan_document,
  finalize_document, send_workspace_invitation,
}

pub data PersistenceError : Type 0 where
  invariant_violation : Text → PersistenceError
  database : PersistenceError
  -- No error of the source: a panic unwinds what was running.
  unwound : PersistenceError

abbrev pub TopicName : Type 0
TopicName = Text

pub record NewOutboxMessage : Type 0 where
  pub topic : TopicName
  pub message : IntegrationMessage

-- The columns. The kind is a text in the table and an enumeration in the program. The identifiers
-- come from a sequence, and attempts are counted up from 0.
pub record OutboxColumns (Kind Value : Type 0) : Type 0 where
  pub id : ℕ
  pub topic : TopicName
  pub event_type : Text
  pub aggregate_type : Text
  pub aggregate_id : Text
  pub payload : Value
  pub request_id : Option Uuid
  pub message_kind : Kind
  pub message_type : Text
  pub message_version : ℕ
  pub message_id : Uuid
  pub subject : Text
  pub correlation_id : Option Uuid
  pub causation_id : Option Uuid
  pub attempt_count : ℕ
  pub next_available_at : DateTime
  pub created_at : DateTime

abbrev pub OutboxRow : Type 0 → Type 0
OutboxRow Value = OutboxColumns Text Value

abbrev pub OutboxMessage : Type 0 → Type 0
OutboxMessage Value = OutboxColumns IntegrationMessageKind Value

unfoldable pub parse_message_kind : Text → Result IntegrationMessageKind PersistenceError
parse_message_kind value =
    if text_eq value (codes "command")
    then ok command
    else if text_eq value (codes "event")
    then ok event
    else err (invariant_violation (codes "persisted outbox message kind must be valid"))

unfoldable pub legacy_event_type : IntegrationMessage → Text
legacy_event_type (scan_document _ _) = codes "document.scan_requested"
legacy_event_type (finalize_document _ _) = codes "document.finalization_requested"
legacy_event_type (send_workspace_invitation _ _) = codes "SendWorkspaceInvitation"

-- What a failure changes in a row.
abbrev pub rescheduled :
    {Kind Value : Type 0} → OutboxColumns Kind Value → ℕ → DateTime → OutboxColumns Kind Value
rescheduled row attempts at = record row { attempt_count = attempts; next_available_at = at }

-- A row with another type of kind.
abbrev pub with_kind :
    {Value : Type 0} → OutboxRow Value → IntegrationMessageKind → OutboxMessage Value
with_kind row kind = record {
  id = row.id;
  topic = row.topic;
  event_type = row.event_type;
  aggregate_type = row.aggregate_type;
  aggregate_id = row.aggregate_id;
  payload = row.payload;
  request_id = row.request_id;
  message_kind = kind;
  message_type = row.message_type;
  message_version = row.message_version;
  message_id = row.message_id;
  subject = row.subject;
  correlation_id = row.correlation_id;
  causation_id = row.causation_id;
  attempt_count = row.attempt_count;
  next_available_at = row.next_available_at;
  created_at = row.created_at;
}

unfoldable pub outbox_message_from_row :
    {Value : Type 0} → OutboxRow Value → Result (OutboxMessage Value) PersistenceError
unfolding parse_message_kind
outbox_message_from_row row = do kind ← parse_message_kind row.message_kind; ok (with_kind row kind)

-- What is stored as a kind is read as it.
pub parse_message_kind-kind_as_str :
    (k : IntegrationMessageKind) → parse_message_kind (kind_as_str k) ≡ ok k
unfolding parse_message_kind kind_as_str
parse_message_kind-kind_as_str command = refl
parse_message_kind-kind_as_str event = refl

pub outbox_message_from_row-id :
    {Value : Type 0} (row : OutboxRow Value) (m : OutboxMessage Value)
    → outbox_message_from_row row ≡ ok m
    → row.id ≡ m.id
unfolding outbox_message_from_row
outbox_message_from_row-id row m h =
    let (_, _, e) = bind-ok (parse_message_kind row.message_kind) _ m h in
    ap (λ c. c.id) (ok-injective _ m e)

pub outbox_message_from_row-rescheduled :
    {Value : Type 0} (row : OutboxRow Value) (m : OutboxMessage Value) (attempts : ℕ)
    (at : DateTime)
    → outbox_message_from_row row ≡ ok m
    → outbox_message_from_row (rescheduled row attempts at) ≡ ok (rescheduled m attempts at)
unfolding outbox_message_from_row
outbox_message_from_row-rescheduled row m attempts at h =
    let (kind, parsed, e) = bind-ok (parse_message_kind row.message_kind) _ m h in
    rw (parsed, sym (ok-injective _ m e)) refl
