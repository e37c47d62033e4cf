-- ===== src/Store/Consumers/Examples.antt =====
-- Runs of the commands on consumers (internal/store/consumer.go, seek.go).
use messq.Common.{
  ◌≡◌, refl, ℕ, [], ◌∷◌, List, true, false, none, some, Option, Bytes, codes, pos, Result, ok,
}
use messq.Queue.Types.{second, dlq, ConsumerConfig, default_consumer_config}
use messq.Queue.Consumer.{default_consumer_limits}
use messq.Queue.Settle.{ready}
use messq.Store.Rows.{DeliveryRow}
use messq.Store.Streams.Admin.{stream_event}
use messq.Store.Consumers.{ConsumerRow, ConsumerTables, Created, create_consumer}
use messq.Store.Consumers.Start.{StartPosition, start_first, start_new, StreamAnchors}
use messq.Store.Consumers.Seek.{seek_consumer}
use messq.Store.Consumers.Seek.Rehearsal.{Rehearses, seek_consumer-Rehearses}
use messq.Store.Consumers.Spelling.{OnlyReported, create_consumer-OnlyReported}

abbrev anchors : StreamAnchors
anchors = record {
  stamps =
      record { seq = 3; published_at = pos 1_000 }
      ∷ record { seq = 4; published_at = pos 2_000 }
      ∷ [];
  next = some 5;
}

abbrev billing : ConsumerRow
billing = record {
  name = codes "Billing";
  filters = [];
  ack_wait_ms = pos 30_000;
  max_deliver = pos 5;
  max_ack_pending = pos 1_000;
  backoff_ms = [];
  dead_policy = dlq;
  cursor_seq = 4;
  generation = 1;
  paused = false;
  created_at = pos 500;
}

abbrev pending : DeliveryRow
pending = record {
  seq = 3;
  subject = codes "a.b";
  state = ready;
  attempts = 0;
  visible_at = pos 0;
  generation = 1;
  delivered_at = pos 0;
  last_reason = [];
}

abbrev tables : ConsumerTables
tables = record {
  stream_exists = true;
  reap = none;
  anchors = anchors;
  row = some billing;
  other_case = none;
  start = some (codes "new");
  deliveries = pending ∷ [];
  events = [];
}

abbrev to_first : StartPosition
to_first = record { kind = start_first; seq = pos 0; time = pos 0; rel = pos 0 }

seek_consumer-Rehearses_example :
    Rehearses tables
      (seek_consumer to_first false (pos second) tables)
      (seek_consumer to_first true (pos second) tables)
seek_consumer-Rehearses_example = seek_consumer-Rehearses to_first (pos second) tables

-- The tables as a creation of "billing" finds them, and leaves them.
abbrev of_billing : ConsumerTables
of_billing = record tables { row = none; other_case = some billing; start = none; deliveries = [] }

abbrev after_billing : ConsumerTables
after_billing = record of_billing {
  events = stream_event (pos 1_000) (codes "consumer.update") ∷ [];
}

abbrev config : ConsumerConfig
config = record (default_consumer_config (codes "billing")) { max_deliver = pos 7 }

abbrev from_new : StartPosition
from_new = record { kind = start_new; seq = pos 0; time = pos 0; rel = pos 0 }

abbrev answer : Created
answer = record { created = false; updated = true; clamped = false }

billing_updated :
    create_consumer
      (λ d. [])
      (pos second)
      default_consumer_limits
      (codes "orders")
      config
      from_new
      of_billing
    ≡ ok (after_billing, answer)
unfolding create_consumer default_consumer_config messq.Subject.Name.validate_consumer_name
    messq.Subject.Name.all_name_bytes messq.Subject.Name.name_byte default_consumer_limits
    messq.Subject.Grammar.parse_set messq.Subject.Utf8.valid_string messq.Common.cut
    messq.Subject.Grammar.classify
billing_updated = refl

create_consumer-OnlyReported_example :
    OnlyReported
      (λ d. [])
      (pos second)
      default_consumer_limits
      (codes "orders")
      config
      of_billing
      billing
      (after_billing, answer)
create_consumer-OnlyReported_example =
    create_consumer-OnlyReported (λ d. []) (pos second) default_consumer_limits (codes "orders")
      config from_new of_billing billing refl refl billing_updated
