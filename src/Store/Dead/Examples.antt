-- ===== src/Store/Dead/Examples.antt =====
-- Runs of the dead-letter sink (internal/store/dead.go), and its theorems at concrete inputs.
use messq.Common.{
  ◌≡◌, ◌<◌, ◌≢◌, ◌⊎◌, inl, inr, refl, ℕ, ◌*◌, arith, [], ◌∷◌, List, true, false, none, some, Option,
  Bytes, codes, ℤ, pos, Result, ok, err,
}
use messq.Queue.Types.{second, DeadPolicy, dlq}
use messq.Queue.Settle.{max_deliver, inflight}
use messq.Queue.Sweep.{SweepRow, SweepPolicy}
use messq.Queue.Dead.{DeadCtx, by_ack_wait, DlqConfig, can_copy}
use messq.Store.Rows.{DeliveryRow}
use messq.Store.Settle.{msg_dead, msg_timeout}
use messq.Store.Streams.Tables.{StoredMessage, Tables, damage}
use messq.Store.Streams.Admin.{stream_event}
use messq.Store.Streams.Accounts.{IsGone, IsConsistent}
use messq.Store.Streams.Numbers.{free_number}
use messq.Store.Sweep.{SweepState, sweep_rows}
use messq.Store.Dead.{
  DeadEvent, store, written, dead_event, dlq_template, ensure_dlq_stream, find_message, copy_of,
  DlqSink, max_dlq_header_bytes, dead,
}
use messq.Store.Dead.Provenance.{provenance_headers, merge_copy_headers}
use messq.Store.Dead.Outcome.{IsUncopied, IsCopied, dead-Outcome}
use messq.Store.Dead.Accounts.{dead-IsConsistent}
use messq.Store.Dead.Restart.{dead-restarts, dead-collides}
use messq.Store.Dead.Room.{Merges, merge_copy_headers-Merges}
use messq.Store.Dead.Sink.{SinkState}
use messq.Store.Dead.NoLoss.{NoneLost, dlq_sweep, sweep_rows-NoneLost}

abbrev limits_of_copies : DlqConfig
limits_of_copies = record {
  max_age = pos 0;
  max_msgs = pos 0;
  max_bytes = pos 0;
  max_msg_size = pos 1_000;
  reason_header_bytes = 100;
  max_copies_per_commit = pos 10;
  max_bytes_per_commit = pos 0;
}

-- It writes no header out.
abbrev sink : DlqSink
sink = record {
  marshal = λ h. codes "{}";
  unmarshal = λ text. none;
  time_text = λ t. codes "then";
  max_header_bytes = 100;
  cfg = limits_of_copies;
}

abbrev origin : List StoredMessage
origin =
    record {
      seq = 7;
      id = codes "m7";
      subject = codes "a.b";
      hdr = [];
      body = codes "hello";
      size = 5;
      published_at = pos 1_000;
      trace_id = codes "t7";
      dedup_key = some (codes "m7");
    }
    ∷ []

abbrev seventh : DeadCtx
seventh = record {
  stream = codes "orders";
  consumer = codes "billing";
  subject = codes "a.b";
  seq = 7;
  msg_id = codes "m7";
  trace_id = codes "t7";
  attempts = 5;
  generation = 1;
  max_deliver = pos 5;
  cause = max_deliver;
  trigger = by_ack_wait;
  policy = dlq;
  last_reason = [];
}

-- It is gone, and had given out five numbers.
abbrev deleted : Tables
deleted = record {
  row = none;
  next = none;
  stats = none;
  consumers = 0;
  messages = [];
  hwm = some (pos 5);
  reap = none;
  events = [];
}

deleted_IsGone : IsGone deleted
deleted_IsGone = record { no_row = refl; no_next = refl; no_stats = refl; empty = λ _. refl }

abbrev told : DeadEvent
told = record (dead_event written seventh (pos 6_000)) {
  dlq_stream = codes "orders.dlq";
  dlq_seq = 1;
  bytes = 5;
}

abbrev a_copy : StoredMessage
a_copy = record {
  seq = 1;
  id = codes "new";
  subject = codes "a.b";
  hdr = codes "{}";
  body = codes "hello";
  size = 5;
  published_at = pos 6_000;
  trace_id = codes "t7";
  dedup_key = none;
}

abbrev revived : Tables
revived = record deleted {
  row = some (dlq_template limits_of_copies (codes "orders.dlq") (pos 6_000));
  next = some 2;
  stats = some (1, 5);
  messages = a_copy ∷ [];
  events = stream_event (pos 6_000) (codes "stream.create") ∷ [];
}

dead_runs :
    dead sink (codes "new") (pos 6_000) (some dlq) origin deleted seventh none
    ≡ ok (told, revived, none)
unfolding dead
dead_runs = refl

dead-Outcome_example :
    IsUncopied sink (codes "new") (pos 6_000) (some dlq) origin deleted revived 7 none none told
    ⊎ IsCopied sink (codes "new") (pos 6_000) origin deleted revived 7 none none told
dead-Outcome_example =
    dead-Outcome sink (codes "new") (pos 6_000) (some dlq) origin deleted revived seventh none none
      told dead_runs

dead-IsConsistent_example : IsConsistent revived × (revived.reap ≡ none)
dead-IsConsistent_example =
    dead-IsConsistent sink (codes "new") (pos 6_000) (some dlq) origin deleted revived seventh none
      none told dead_runs (inr deleted_IsGone) refl

five_given : 1 < free_number deleted
unfolding free_number
five_given = omega arith

dead-restarts_example : (told.dlq_seq ≡ 1) × (told.dlq_seq < free_number deleted)
dead-restarts_example =
    dead-restarts sink (codes "new") (pos 6_000) (some dlq) origin deleted revived seventh none none
      told dead_runs refl deleted_IsGone five_given

-- The first of its messages are still to be deleted.
abbrev half_deleted : Tables
half_deleted = record deleted { messages = a_copy ∷ []; reap = some (pos 5) }

half_deleted-IsGone : IsGone half_deleted
half_deleted-IsGone = record {
  no_row = refl;
  no_next = refl;
  no_stats = refl;
  empty = λ no_marker. absurd (cc);
}

seventh_found :
    find_message 7 origin
    ≡ some (record (a_copy) {
      seq = 7;
      id = codes "m7";
      hdr = [];
      published_at = pos 1_000;
      dedup_key = some (codes "m7");
    })
unfolding find_message
seventh_found = refl

no_budget : can_copy none (pos 5) ≡ true
unfolding can_copy
no_budget = refl

headers_fit :
    merge_copy_headers sink.marshal sink.unmarshal
      (max_dlq_header_bytes sink)
      []
      (provenance_headers sink.time_text
        (record seventh { policy = dlq })
        (pos 1_000)
        (pos 6_000)
        100).0
    ≡ ok (codes "{}", false)
unfolding merge_copy_headers max_dlq_header_bytes
headers_fit = refl

dead-collides_example :
    dead sink (codes "new") (pos 6_000) (some dlq) origin half_deleted seventh none
    ≡ err (store (damage (codes "insert message")))
dead-collides_example =
    dead-collides sink (codes "new") (pos 6_000) origin half_deleted seventh none _ a_copy []
      half_deleted-IsGone refl refl seventh_found no_budget headers_fit

merge_copy_headers-Merges_example :
    Merges sink.marshal 100 sink.unmarshal [] ((codes "Messq-Dlq-Seq", codes "7") ∷ []) (
      merge_copy_headers sink.marshal sink.unmarshal 100 []
        ((codes "Messq-Dlq-Seq", codes "7") ∷ []))
merge_copy_headers-Merges_example =
    merge_copy_headers-Merges sink.marshal 100 sink.unmarshal []
      ((codes "Messq-Dlq-Seq", codes "7") ∷ [])

abbrev held : DeliveryRow
held = record {
  seq = 7;
  subject = codes "a.b";
  state = inflight;
  attempts = 5;
  visible_at = pos 5_000;
  generation = 1;
  delivered_at = pos 1_000;
  last_reason = [];
}

abbrev expired : SweepRow
expired = record {
  key = record { stream = codes "orders"; consumer = codes "billing" };
  seq = 7;
  subject = codes "a.b";
  attempts = 5;
  generation = 1;
  visible_at = pos 5_000;
  delivered_at = pos 1_000;
  last_reason = [];
  msg_id = codes "m7";
  trace_id = codes "t7";
}

abbrev policy : SweepPolicy
policy = record { ack_wait = pos (30 * second); max_deliver = pos 5; backoff = []; generation = 1 }

abbrev before : SweepState SinkState
before = record {
  rows = held ∷ [];
  result = record {
    redelivered = 0;
    dead = 0;
    skipped = 0;
    deferred = 0;
    woke = false;
    max_lateness_ms = pos 0;
  };
  events = [];
  sink_state = record { dlq = deleted; budget = none; minted = 0 };
}

abbrev after : SweepState SinkState
after = record {
  rows = [];
  result = record {
    redelivered = 0;
    dead = 1;
    skipped = 0;
    deferred = 0;
    woke = false;
    max_lateness_ms = pos 1_000;
  };
  events =
      record { name = msg_timeout; seq = 7; attempt = 5; at = pos 6_000 }
      ∷ record { name = msg_dead; seq = 7; attempt = 5; at = pos 6_000 }
      ∷ [];
  sink_state = record { dlq = revived; budget = none; minted = 1 };
}

sweep_runs :
    sweep_rows
      (dlq_sweep sink (λ n. codes "new") (some dlq) origin none (pos (6 * second)))
      (pos (6 * second))
      (some policy)
      (expired ∷ [])
      before
    ≡ ok after
unfolding sweep_rows messq.Queue.Sweep.decide_sweep messq.Queue.Types.unix_milli
    messq.Store.Dead.Sink.dlq_sink messq.Common.sub64
sweep_runs = refl

sweep_rows-NoneLost_example : NoneLost sink (λ n. codes "new") (some dlq) origin before after
sweep_rows-NoneLost_example =
    sweep_rows-NoneLost sink (λ n. codes "new") (some dlq) origin none (pos (6 * second))
      (some policy) (expired ∷ []) before after sweep_runs
