-- ===== src/Store/Streams/Examples.antt =====
-- The commands on a stream (internal/store/publish.go, commands.go, delete.go) at concrete tables.
use messq.Common.{
  ℕ, ◌≡◌, refl, inl, inr, List, [], ◌∷◌, length, Bool, true, false, Option, none, some, Bytes,
  codes, bytes_eq, ℤ, pos, Result, ok, arith, ◌<◌,
}
use messq.Queue.Types.{Error, StreamConfig, limits, old}
use messq.Queue.Dlq.{Headers}
use messq.Queue.Publish.{PublishReq, validate_publish}
use messq.Queue.Config.{default_limits}
use messq.Store.Streams.Tables.{StoredMessage, StreamRow, Tables}
use messq.Store.Streams.Publish.{
  client_publish, Ack, LoadedConfig, publish_tx_with_config, publish_all,
}
use messq.Store.Streams.Retry.{publish-again}
use messq.Store.Streams.Times.{InOrder, publish-InOrder}
use messq.Store.Streams.Admin.{reap_all, reap_chunk, stream_event}
use messq.Store.Streams.Patch.{StreamPatch, UpdateResult, update_stream}
use messq.Store.Streams.Updated.{IsUpdated, update_stream-IsUpdated}
use messq.Store.Streams.Accounts.{IsLive, IsGone, IsConsistent}
use messq.Store.Streams.Deletion.{reap_all-done, chunk-breaks}
use messq.Store.Streams.Numbers.{
  Command, update, create, publish, delete, resume, history, free_number, count_up,
  history-eq-count_up,
}
mod Update

abbrev encode : Headers → Result Error Bytes
encode h = ok []

abbrev orders : StreamConfig
orders = record {
  name = codes "orders";
  subjects = codes "a" ∷ [];
  retention = limits;
  max_msgs = pos 0;
  max_bytes = pos 0;
  max_age = pos 0;
  max_msg_size = pos 100;
  discard = old;
  dedup_window = pos 60_000_000_000;
}

abbrev loaded : LoadedConfig
loaded = record { cfg = orders; window = pos 60_000 }

abbrev request : Bytes → PublishReq
request msg_id = record {
  subject = codes "a";
  headers = [];
  body = codes "hello";
  msg_id = msg_id;
  trace_id = [];
}

abbrev no_stream : Tables
no_stream = record {
  row = none;
  next = none;
  stats = none;
  consumers = 0;
  messages = [];
  hwm = none;
  reap = none;
  events = [];
}

no_stream-IsGone : IsGone no_stream
no_stream-IsGone = record { no_row = refl; no_next = refl; no_stats = refl; empty = λ e. refl }

abbrev stored : ℕ → Bytes → Option Bytes → ℤ → StoredMessage
stored seq id key at = record {
  seq = seq;
  id = id;
  subject = codes "a";
  hdr = [];
  body = codes "hello";
  size = 5;
  published_at = at;
  trace_id = codes "t";
  dedup_key = key;
}

abbrev pub live_row : StreamRow
live_row = record {
  name = codes "orders";
  subjects = codes "a" ∷ [];
  retention = limits;
  max_msgs = pos 0;
  max_bytes = pos 0;
  max_age_ms = pos 0;
  max_msg_size = pos 100;
  discard = old;
  dedup_window_ms = pos 60_000;
  created_at = pos 0;
}

abbrev pub live : Tables
live = record {
  row = some live_row;
  next = some 8;
  stats = some (1, 5);
  consumers = 0;
  messages = stored 7 (codes "m7") none (pos 900) ∷ [];
  hwm = none;
  reap = none;
  events = [];
}

pub live-IsLive : IsLive live
live-IsLive = record {
  config = _;
  free = _;
  row_is = refl;
  next_is = refl;
  stats_are = refl;
  below = (omega arith, tt);
  no_marker = refl;
}

-- A clock that has stepped back gives the message the time of the last one.
abbrev first : Tables × Ack
first = (
  record live {
    next = some 9;
    stats = some (2, 10);
    messages =
        stored 7 (codes "m7") none (pos 900)
        ∷ stored 8 (codes "m8") (some (codes "k")) (pos 900)
        ∷ [];
    events = record { ts = pos 500; name = codes "msg.publish"; seq = 8; msg_id = codes "m8" } ∷ [];
  },
  record {
    stream = codes "orders";
    seq = 8;
    id = codes "m8";
    trace_id = codes "t";
    duplicate = false;
    published_at = pos 900;
  },
)

first_published :
    publish_tx_with_config encode
      (codes "m8")
      (codes "t")
      (pos 500)
      loaded
      (request (codes "k"))
      client_publish
      live
    ≡ ok first
unfolding publish_tx_with_config client_publish messq.Subject.Grammar.parse_subject
    messq.Subject.Utf8.valid_string messq.Common.cut messq.Subject.Grammar.classify
    messq.Subject.Utf8.runes messq.Subject.Utf8.is_control messq.Subject.Grammar.parse_set
    messq.Subject.Match.match_any
first_published = refl

publish-InOrder_example : InOrder first.0.messages
publish-InOrder_example =
    publish-InOrder encode (codes "m8") (codes "t") (pos 500) loaded (request (codes "k"))
      client_publish live first.0 first.1 first_published (tt, tt)

again_valid : validate_publish encode orders (request (codes "k")) ≡ ok tt
unfolding validate_publish messq.Subject.Grammar.parse_subject messq.Subject.Utf8.valid_string
    messq.Common.cut messq.Subject.Grammar.classify messq.Subject.Utf8.runes
    messq.Subject.Utf8.is_control messq.Subject.Grammar.parse_set messq.Subject.Match.match_any
again_valid = refl

named : bytes_eq (codes "k") [] ≡ false
unfolding bytes_eq
named = refl

no_others : publish_all encode (pos 600) loaded 1 [] first.0 ≡ ok (first.0, [])
unfolding publish_all
no_others = refl

publish-again_example :
    (t3 : Tables) × (publish_tx_with_config encode
        (codes "m9")
        (codes "u")
        (pos 950)
        loaded
        (request (codes "k"))
        client_publish
        first.0
      ≡ ok (t3, record first.1 { duplicate = true }))
    × (t3 ≡ record first.0 { events = t3.events })
publish-again_example =
    publish-again encode loaded (codes "m8") (codes "t") (codes "m9") (codes "u") (pos 500)
      (pos 600) (pos 950) (request (codes "k")) (request (codes "k")) 1 [] live first.0 first.0
      first.1 [] named refl first_published no_others refl again_valid

abbrev pub ten_at_most : StreamPatch
ten_at_most = record {
  subjects = none;
  retention = none;
  max_msgs = some (pos 10);
  max_bytes = none;
  max_age_ms = none;
  max_msg_size = none;
  discard = none;
  dedup_window_ms = none;
}

abbrev commands : List Command
commands =
    create none orders (pos 1)
    ∷ publish (codes "m1") (codes "t") (pos 2) (codes "orders") (request []) client_publish
    ∷ update default_limits false (pos 2) ten_at_most
    ∷ publish (codes "m2") (codes "t") (pos 2) (codes "orders") (request []) client_publish
    ∷ delete (pos 3)
    ∷ resume
    ∷ create none orders (pos 4)
    ∷ publish (codes "m3") (codes "t") (pos 5) (codes "orders") (request []) client_publish
    ∷ []

three_numbers : (history encode no_stream commands).1 ≡ 1 ∷ 2 ∷ 3 ∷ []
unfolding history client_publish default_limits messq.Subject.Name.validate_new_stream_name
    messq.Subject.Name.all_name_bytes messq.Subject.Name.name_byte
    messq.Subject.Name.starts_with_dot messq.Subject.Name.ends_with_dot
    messq.Subject.Name.has_two_dots messq.Subject.Grammar.parse_subject
    messq.Subject.Utf8.valid_string messq.Common.cut messq.Subject.Grammar.classify
    messq.Subject.Utf8.runes messq.Subject.Utf8.is_control messq.Subject.Grammar.parse_set
    messq.Subject.Match.match_any
three_numbers = refl

history-eq-count_up_example :
    ((history encode no_stream commands).1
      ≡ count_up (free_number no_stream) (length (history encode no_stream commands).1))
    × IsConsistent (history encode no_stream commands).0
history-eq-count_up_example = history-eq-count_up encode no_stream commands (inr no_stream-IsGone)

reap_all-done_example : ((reap_all 2 live).messages ≡ []) × ((reap_all 2 live).reap ≡ none)
reap_all-done_example = reap_all-done 2 live (omega arith)

chunk-breaks_example :
    (length (reap_chunk live).0.messages < 1) × (¬ IsConsistent (reap_chunk live).0)
chunk-breaks_example = chunk-breaks live live-IsLive (omega arith)
