-- ===== src/Store/Examples.antt =====
-- Runs of internal/store's transitions, and their theorems at concrete inputs.
use messq.Common.{
  ◌≡◌, ◌≢◌, ◌≤◌, ◌<◌, ◌≤ℤ◌, ◌⊎◌, refl, inl, inr, ℕ, ◌*◌, [], ◌∷◌, List, true, false, none, some,
  Bytes, codes, ℤ, pos, Result, ok, err, arith, length, if◌then◌else◌,
}
use messq.Queue.Types.{second, Time, default_consumer_config}
use messq.Queue.Settle.{ready, inflight, Verb, ack, ItemStatus, stale}
use messq.Queue.Dead.{DeadCtx}
use messq.Queue.Backoff.{backoff_for}
use messq.Subject.Grammar.{compiled, gt}
use messq.Store.Rows.{Message, DeliveryRow, Sorted}
use messq.Store.Fetch.{ConsumerState, top_up, at_or_after}
use messq.Store.Fetch.Cursor.{IsBounded, Ascending, Covered, top_up-IsBounded, top_up-Covered}
use messq.Store.Claim.{claim_ready}
use messq.Store.Claim.Once.{claim_ready-ClaimedOnce, ClaimedOnce, Pairwise}
use messq.Store.Settle.{
  SettleConsumer, ConsumerColumns, load_settle_consumer, SettleItem, Event, msg_dead, msg_ack,
  ItemResult, StoreError, SettleState, SettleCmd, row_of, fence,
}
use messq.Store.Settle.Apply.{apply_one}
use messq.Store.Settle.Writes.{IsCurrent, IsNamed, Returns, apply_one-Returns}
use messq.Store.Settle.Replay.{Holds, apply_one-others, ack-once}
use messq.Store.Settle.Schedule.{load_settle_consumer-default_schedule}

abbrev message : ℕ → ℕ → Message
message seq size = record { seq = seq; subject = codes "a.b"; size = size }

abbrev stream : List Message
stream = message 1 40 ∷ message 2 70 ∷ message 4 10 ∷ message 5 10 ∷ []

abbrev consumer : ConsumerState
consumer = record {
  filters = compiled (codes ">") (gt ∷ []) ∷ [];
  max_ack_pending = pos 3;
  cursor_seq = 2;
  generation = 1;
}

abbrev row : ℕ → DeliveryRow
row seq = record {
  seq = seq;
  subject = codes "a.b";
  state = ready;
  attempts = 1;
  visible_at = pos 5_000;
  generation = 1;
  delivered_at = pos 1_000;
  last_reason = [];
}

top_up-IsBounded_example : IsBounded (pos 3) (top_up consumer 1 6 4096 stream (row 1 ∷ [])).1
top_up-IsBounded_example = top_up-IsBounded consumer 6 4096 stream (row 1 ∷ []) (omega arith)

stream-Ascending : Ascending 0 stream
stream-Ascending = (omega arith, (omega arith, (omega arith, (omega arith, tt))))

top_up-Covered_example :
    Covered consumer
      (top_up consumer 1 6 4096 stream (row 1 ∷ [])).0
      (top_up consumer 1 6 4096 stream (row 1 ∷ [])).1.rows
      (at_or_after 2 stream)
top_up-Covered_example = top_up-Covered consumer 1 6 4096 stream (row 1 ∷ []) stream-Ascending

-- The fourth message is held back by the bound of three, and the cursor stays at it.
cursor_waits : (top_up consumer 1 6 4096 stream (row 1 ∷ [])).0 ≡ 5
unfolding top_up compiled messq.Subject.Match.valid_tail messq.Common.cut
cursor_waits = refl

-- Row 2 is held by an earlier fetch.
abbrev table : List DeliveryRow
table = row 1 ∷ record (row 2) { state = inflight } ∷ row 4 ∷ []

table-Sorted : Sorted 0 table
table-Sorted = (omega arith, (omega arith, (omega arith, tt)))

claim_ready-ClaimedOnce_example :
    Pairwise
      (ClaimedOnce (pos 6_000) (pos 30_000))
      table
      (claim_ready (pos 6_000) (pos 30_000) 10 (pos 100) stream table).1
claim_ready-ClaimedOnce_example =
    claim_ready-ClaimedOnce (pos 6_000) (pos 30_000) 10 (pos 100) stream table table-Sorted

abbrev fence_facts : SettleConsumer
fence_facts = record {
  found = true;
  generation = 1;
  cursor_seq = 5;
  cfg = default_consumer_config (codes "billing");
}

abbrev item : SettleItem
item = record {
  token = record {
    stream = codes "orders";
    consumer = codes "billing";
    seq = 2;
    attempt = 1;
    generation = 1;
  };
  verb = ack;
  delay = none;
  reason = [];
}

-- A sink that records the death and never fails.
abbrev recording : DeadCtx → Time → Result StoreError Event
recording d now = ok (record { name = msg_dead; seq = d.seq; attempt = d.attempts; at = now })

abbrev command : SettleCmd
command = record {
  sink = recording;
  trim = λ s. s;
  ids = λ n. ([], []);
  interval = pos (10 * second);
  jitter = none;
  reason_cap = 256;
  max_ack_wait = pos (3600 * second);
}

abbrev held : SettleState
held = record {
  rows = table;
  dup_limiter = record { last_ms = pos 0; suppressed = 0 };
  stale_limiter = record { last_ms = pos 0; suppressed = 0 };
  events = [];
}

table_generations : (n : ℕ) (r : DeliveryRow) → row_of n table ≡ some r → r.generation ≡ 1
unfolding row_of
table_generations n r h = ground arith

table-IsCurrent : IsCurrent fence_facts table
table-IsCurrent = record { sorted = table-Sorted; generations = table_generations }

apply_one-Returns_example :
    Returns command
      (pos (6 * second))
      (apply_one command (pos (6 * second)) item fence_facts table held)
apply_one-Returns_example =
    apply_one-Returns command (pos (6 * second)) item fence_facts held table-IsCurrent

item-IsNamed : IsNamed item.token table (record (row 2) { state = inflight })
unfolding row_of fence
item-IsNamed = record { found = refl; fenced = refl }

ack-once_example :
    Holds
      (λ out.
        (out.0.status ≡ ItemStatus.ok)
        × (row_of 2 out.1.rows ≡ none)
        × Holds
            (λ again. (again.0.status ≡ stale) × (again.1.rows ≡ out.1.rows))
            (apply_one command (pos (7 * second)) item fence_facts out.1.rows out.1))
      (apply_one command (pos (6 * second)) item fence_facts table held)
ack-once_example =
    ack-once command (pos (6 * second)) (pos (7 * second)) item fence_facts held
      (record (row 2) { state = inflight }) table-Sorted item-IsNamed refl refl refl (omega arith)

-- What becomes of an acked batch: the result of the run above.
abbrev after_ack : SettleState
after_ack = record held {
  rows = row 1 ∷ row 4 ∷ [];
  events = record { name = msg_ack; seq = 2; attempt = 1; at = pos 6_000 } ∷ [];
}

abbrev acked_result : ItemResult
acked_result = record {
  token = item.token;
  status = ItemStatus.ok;
  attempt = 1;
  of = pos 5;
  current_attempt = 0;
  deadline = none;
  retry_at = none;
  dead = false;
  late = false;
  held_for = pos (5 * second);
  error = none;
}

ack_runs :
    apply_one command (pos (6 * second)) item fence_facts table held ≡ ok (acked_result, after_ack)
unfolding apply_one messq.Queue.Settle.plan_settle default_consumer_config messq.Common.mul64
    messq.Queue.Types.unix_milli messq.Common.sub64
ack_runs = refl

apply_one-others_example : row_of 4 after_ack.rows ≡ row_of 4 table
apply_one-others_example =
    apply_one-others command (pos (6 * second)) item fence_facts table held 4
      {out = (acked_result, after_ack)} (λ e. omega (arith, e)) ack_runs

-- A consumer that asks for an hour between its attempts.
abbrev columns : ConsumerColumns
columns = record {
  generation = 1;
  cursor_seq = 5;
  ack_wait_ms = pos 30_000;
  max_deliver = pos 5;
  backoff_ms = pos 3_600_000 ∷ [];
}

load_settle_consumer-default_schedule_example :
    backoff_for (load_settle_consumer (codes "billing") (some columns)).cfg 2
    ≡ backoff_for (default_consumer_config (codes "billing")) 2
load_settle_consumer-default_schedule_example =
    load_settle_consumer-default_schedule (codes "billing") columns 2 (omega arith)
