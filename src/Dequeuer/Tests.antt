-- ===== src/Dequeuer/Tests.antt =====
-- Runs on a table of two rows.
use proofplane.Prelude.{
  ℕ, ◌+◌, ◌≤◌, ◌≡◌, refl, true, false, none, some, List, [], ◌∷◌, arith, length, pos, negsuc, ok,
}
use proofplane.Text.{codes}
use proofplane.Dequeuer.Counting.{run_once-count}
use proofplane.Dequeuer.Delivery.{history-Kept}
use proofplane.Dequeuer.Draining.{run_times, history-drained}
use proofplane.Dequeuer.History.{runs, appends, Event, history}
use proofplane.Dequeuer.Kept.{Kept}
use proofplane.Dequeuer.Publishing.{
  Publisher, OutboxDequeuerConfig, retry_delay, default_config, publish_outbox_row, outcome_of,
  publish_failure, duration_limit,
}
use proofplane.Dequeuer.Retry.{retry_delay_doubles, next_delay}
use proofplane.Dequeuer.Run.{World, run_once, publish_rows, publish_row, settle}
use proofplane.Domain.Ids.{DateTime}
use proofplane.Messaging.Example.{codec}
use proofplane.Messaging.Types.{scan_document_type, command, evidence_work, document, scan_document}
use proofplane.Outbox.Keys.{IsKeyed}
use proofplane.Outbox.Lookup.{find_row}
use proofplane.Outbox.Ordering.{order_by}
use proofplane.Outbox.Rows.{
  OutboxRow, outbox_message_from_row, parse_message_kind, with_kind, rescheduled,
}
use proofplane.Outbox.Table.{
  Outbox, list_due_outbox_messages, due_rows, collect_rows, delete_outbox_message,
  record_outbox_publish_failure,
}

abbrev row : ℕ → DateTime → OutboxRow (List ℕ)
row id at = record {
  id = id;
  topic = codes "bus";
  event_type = codes "document.scan_requested";
  aggregate_type = codes "evidence_document";
  aggregate_id = codes "d";
  payload = 0 ∷ 5 ∷ [];
  request_id = none;
  message_kind = codes "command";
  message_type = scan_document_type;
  message_version = 1;
  message_id = 7;
  subject = codes "d";
  correlation_id = none;
  causation_id = none;
  attempt_count = 0;
  next_available_at = at;
  created_at = at;
}

abbrev table : Outbox (List ℕ)
table = record { next_id = 3; rows = row 1 20 ∷ row 2 10 ∷ [] }

-- The first call of all fails, those after it are taken.
abbrev first_refused : Publisher
first_refused [] topic message = some (codes "unavailable")
first_refused (_ ∷ _) topic message = none

abbrev accepting : Publisher
accepting log topic message = none

abbrev start : World (List ℕ)
start = record { outbox = table; log = []; faults = [] }

abbrev one_by_one : OutboxDequeuerConfig
one_by_one = record default_config { batch_size = 1 }

-- The row that was due first is refused and put off by a second; the other one is published.
refused_test :
    (run_once codec first_refused default_config 30 start).1.outbox.rows
    ≡ rescheduled (row 2 10) 1 1_000_000_030 ∷ []
unfolding run_once list_due_outbox_messages due_rows order_by collect_rows outbox_message_from_row
    parse_message_kind publish_rows publish_row publish_outbox_row outcome_of publish_failure
    retry_delay settle delete_outbox_message record_outbox_publish_failure
refused_test = refl

-- A database that fails after the message was published keeps the row.
redelivery_test :
    (run_once codec accepting one_by_one 30
      (record start { faults = false ∷ true ∷ [] })).1.outbox.rows
    ≡ table.rows
unfolding run_once list_due_outbox_messages due_rows order_by collect_rows outbox_message_from_row
    parse_message_kind publish_rows publish_row publish_outbox_row outcome_of settle
    delete_outbox_message
redelivery_test = refl

table-IsKeyed : IsKeyed table
table-IsKeyed = ((refl, (refl, tt)), (omega arith, (omega arith, tt)))

-- Before a first attempt the delay is not shortened, and a product that is no duration panics.
negative_test : retry_delay (negsuc 3) (pos 5) (pos 300) ≡ some (pos 5)
unfolding retry_delay
negative_test = refl

overflow_test : retry_delay (pos 30) (pos duration_limit) (pos duration_limit) ≡ none
unfolding retry_delay
overflow_test = refl

negative_delay_test : retry_delay (pos 2) (negsuc 4) (pos 300) ≡ some (negsuc 19)
unfolding retry_delay
negative_delay_test = refl

retry_delay_doubles_example :
    (retry_delay (pos 0) (pos 1) (pos 300) ≡ some (pos 1))
    × ((d : ℕ) × (retry_delay (pos 12) (pos 1) (pos 300) ≡ some (pos d))
        × (1 ≤ d)
        × (d ≤ 300)
        × (retry_delay (pos 13) (pos 1) (pos 300) ≡ some (pos (next_delay 12 d 300))))
retry_delay_doubles_example = retry_delay_doubles 12 1 300 (omega arith) (omega arith)

abbrev events : List Event
events =
    runs 30
    ∷ appends 40 (record {
      topic = codes "bus";
      message =
          scan_document
            (record {
              message_id = 8;
              subject = codes "e";
              correlation_id = none;
              causation_id = none;
            })
            (document (evidence_work 6 (codes "key")));
    })
    ∷ runs 50
    ∷ []

row_found : find_row 2 table.rows ≡ some (row 2 10)
unfolding find_row
row_found = refl

row_read : outbox_message_from_row (row 2 10) ≡ ok (with_kind (row 2 10) command)
unfolding outbox_message_from_row parse_message_kind
row_read = refl

row_read_first : outbox_message_from_row (row 1 20) ≡ ok (with_kind (row 1 20) command)
unfolding outbox_message_from_row parse_message_kind
row_read_first = refl

history-Kept_example :
    Kept codec 2
      (row 2 10)
      (with_kind (row 2 10) command)
      (history codec first_refused default_config start events)
history-Kept_example =
    history-Kept codec first_refused default_config start events 2 (row 2 10)
      (with_kind (row 2 10) command) table-IsKeyed row_found row_read

history-drained_example :
    (history codec accepting one_by_one start
      (run_times codec accepting one_by_one (λ _ _ _. refl) 2 30)).outbox.rows
    ≡ []
history-drained_example =
    history-drained codec accepting one_by_one (λ _ _ _. refl) 2 30 table [] table-IsKeyed
      (
        ((with_kind (row 1 20) command, row_read_first), omega arith),
        (((with_kind (row 2 10) command, row_read), omega arith), tt),
      )
      (omega arith)

abbrev after_run : World (List ℕ)
after_run = (run_once codec accepting default_config 30 start).1

two_published : run_once codec accepting default_config 30 start ≡ (ok 2, after_run)
unfolding run_once list_due_outbox_messages due_rows order_by collect_rows outbox_message_from_row
    parse_message_kind publish_rows publish_row publish_outbox_row outcome_of settle
    delete_outbox_message
two_published = refl

run_once-count_example : length after_run.outbox.rows + 2 ≡ 2
run_once-count_example =
    run_once-count codec accepting default_config 30 start after_run 2 table-IsKeyed two_published
