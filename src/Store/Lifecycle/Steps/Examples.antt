-- ===== src/Store/Lifecycle/Steps/Examples.antt =====
-- Runs of the commands of one consumer's life (internal/store).
use messq.Common.{
  ◌≡◌, ◌≤◌, ◌<◌, ◌≤ℤ◌, refl, ℕ, ◌-◌, ◌⊎◌, length, arith, [], ◌∷◌, List, All, true, false, none,
  some, Option, codes, pos, ok, ◌++◌, suc,
}
use messq.Subject.Grammar.{compiled, gt}
use messq.Queue.Settle.{ready, inflight}
use messq.Store.Rows.{Message, DeliveryRow}
use messq.Queue.Publish.{PublishReq}
use messq.Store.Streams.Tables.{StoredMessage, Tables}
use messq.Store.Streams.Publish.{PublishOpts, client_publish, Ack, publish_tx}
use messq.Queue.Types.{limits, old}
use messq.Store.Lifecycle.Published.{seen}
use messq.Store.Fetch.{ConsumerState}
use messq.Store.Consumers.Shrink.{is_fresh, shrink_to}
use messq.Store.Lifecycle.{World, RowsOk, IsSound}
use messq.Store.Lifecycle.Shrinks.{Settles, shrink_to-settles}
use messq.Store.Lifecycle.Steps.{
  Step, publishes, tops_up, claims, shrinks, Reach, here, then, fresh_world, Reach-IsSound,
}

abbrev consumer : ConsumerState
consumer = record {
  filters = compiled (codes ">") (gt ∷ []) ∷ [];
  max_ack_pending = pos 10;
  cursor_seq = 1;
  generation = 1;
}

abbrev message : ℕ → Message
message seq = record { seq = seq; subject = codes "a.b"; size = 5 }

abbrev row : ℕ → DeliveryRow
row seq = record {
  seq = seq;
  subject = codes "a.b";
  state = ready;
  attempts = 0;
  visible_at = pos 0;
  generation = 1;
  delivered_at = pos 0;
  last_reason = [];
}

-- Three publishes, a fetch that claims one of the three rows, and a bound lowered to two.
abbrev published : World
published = record {
  messages = message 1 ∷ message 2 ∷ message 3 ∷ [];
  next = 4;
  state = consumer;
  rows = [];
}

abbrev topped_up : World
topped_up = record published {
  state = record consumer { cursor_seq = 4 };
  rows = row 1 ∷ row 2 ∷ row 3 ∷ [];
}

abbrev claimed_row : DeliveryRow
claimed_row = record (row 1) {
  state = inflight;
  attempts = 1;
  visible_at = pos 9_000;
  delivered_at = pos 5_000;
}

abbrev fetched : World
fetched = record topped_up { rows = claimed_row ∷ row 2 ∷ row 3 ∷ [] }

abbrev narrowed : World
narrowed = record published {
  state = record consumer { cursor_seq = 3; max_ack_pending = pos 2 };
  rows = claimed_row ∷ row 2 ∷ [];
}

-- The tables of the stream after `n` publishes of "a.b" with the body "hello".
abbrev stored : ℕ → StoredMessage
stored seq = record {
  seq = seq;
  id = seq ∷ [];
  subject = codes "a.b";
  hdr = [];
  body = codes "hello";
  size = 5;
  published_at = pos 900;
  trace_id = codes "t";
  dedup_key = none;
}

abbrev tables : List StoredMessage → ℕ → Tables
tables ms next = record {
  row = some (record {
    name = codes "orders";
    subjects = codes ">" ∷ [];
    retention = limits;
    max_msgs = pos 0;
    max_bytes = pos 0;
    max_age_ms = pos 0;
    max_msg_size = pos 100;
    discard = old;
    dedup_window_ms = pos 0;
    created_at = pos 0;
  });
  next = some next;
  stats = some (0, 0);
  consumers = 1;
  messages = ms;
  hwm = none;
  reap = none;
  events = [];
}

abbrev after : List StoredMessage → ℕ → Tables
after ms next = record (tables ms next) { stats = some (1, 5) }

abbrev request : PublishReq
request = record {
  subject = codes "a.b";
  headers = [];
  body = codes "hello";
  msg_id = [];
  trace_id = [];
}

abbrev quiet : PublishOpts
quiet = record client_publish { suppress_event = true }

abbrev ack : ℕ → Ack
ack seq = record {
  stream = codes "orders";
  seq = seq;
  id = seq ∷ [];
  trace_id = codes "t";
  duplicate = false;
  published_at = pos 900;
}

abbrev Published : List StoredMessage → ℕ → Type 0
Published ms seq =
    publish_tx (λ h. ok []) (seq ∷ []) (codes "t") (pos 900) (codes "orders") request quiet
      (tables ms seq)
    ≡ ok (after (ms ++ (stored seq ∷ [])) (suc seq), ack seq)

three_writes : Published [] 1 × Published (stored 1 ∷ []) 2 × Published (stored 1 ∷ stored 2 ∷ []) 3
unfolding publish_tx client_publish messq.Store.Streams.Publish.publish_tx_with_config
    messq.Store.Streams.Publish.load_stream_config messq.Subject.Grammar.parse_subject
    messq.Subject.Utf8.valid_string messq.Common.cut messq.Subject.Grammar.classify
    messq.Subject.Utf8.runes messq.Subject.Utf8.is_control messq.Subject.Grammar.parse_set
    messq.Subject.Match.match_any messq.Subject.Match.valid_tail
three_writes = (refl, refl, refl)

publishes_run :
    (w : World) (ms : List StoredMessage)
    → Published ms w.next
    → seen ms ≡ w.messages
    → Step Unit w (record w { messages = seen (ms ++ (stored w.next ∷ [])); next = suc w.next })
publishes_run w ms h same =
    publishes (λ h. ok []) (w.next ∷ []) (codes "t") (pos 900) (codes "orders") request quiet
      (tables ms w.next) (after (ms ++ (stored w.next ∷ [])) (suc w.next)) (ack w.next) same refl h

run_published : Reach Unit (fresh_world consumer) published
run_published =
    then
      (then (then here (publishes_run _ [] (three_writes.0) refl))
        (publishes_run _ (stored 1 ∷ []) (three_writes.1) refl))
      (publishes_run _ (stored 1 ∷ stored 2 ∷ []) three_writes.2 refl)

tops_up_run : Step Unit published topped_up
unfolding messq.Store.Fetch.top_up compiled messq.Subject.Match.valid_tail messq.Common.cut
tops_up_run = tops_up 0 100

claims_run : Step Unit topped_up fetched
unfolding messq.Store.Claim.claim_ready messq.Common.add64
claims_run = claims (pos 5_000) (pos 4_000) 1 (pos 1_000) (ground arith)

shrinks_run : Step Unit fetched narrowed
unfolding messq.Store.Consumers.Shrink.shrink_to
shrinks_run = shrinks 2

run : Reach Unit (fresh_world consumer) fetched
run = then (then run_published tops_up_run) claims_run

Reach-IsSound_example : IsSound narrowed
Reach-IsSound_example = Reach-IsSound Unit consumer (then run shrinks_run)

fetched_RowsOk : RowsOk fetched.messages fetched.state fetched.rows
fetched_RowsOk = (Reach-IsSound Unit consumer run).rows_ok

shrink_to-settles_example :
    Settles fetched.messages 4 fetched.state 2
      (shrink_to 2 4 fetched.rows).2
      (shrink_to 2 4 fetched.rows).1
shrink_to-settles_example =
    shrink_to-settles fetched.messages 4 fetched.state 2 fetched.rows fetched_RowsOk
