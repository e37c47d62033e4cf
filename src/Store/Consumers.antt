-- ===== src/Store/Consumers.antt =====
-- internal/store/consumer.go: the rows of one consumer's name, and the commands that write them. A row
-- is found in any letter case by a creation, and by its exact name elsewhere.
pub mod Start
pub mod Shrink
pub mod Seek
pub mod Spelling
mod Examples
use messq.Common.{
  ℕ, zero, suc, ◌+◌, List, [], ◌∷◌, ◌++◌, length, map, Bool, true, false, not, ◌||◌, Option, none,
  some, Bytes, bytes_eq, codes, ℤ, pos, eq_ℤ, ltb_ℤ, mul64, ◌==◌, if◌then◌else◌, Result, ok, err,
  ◌>>=◌, ◌>>◌, map_err,
}
use messq.Errs.{not_found, conflict}
use messq.Queue.Types.{
  Error, sentinel, Duration, milliseconds, millisecond, Time, unix_milli, DeadPolicy, dlq, drop,
  other_policy, ConsumerConfig,
}
use messq.Queue.Consumer.{
  ConsumerLimits, Warning, validate_consumer_config, validate_dead_policy_for_stream,
}
use messq.Queue.Settle.{is_ready}
use messq.Store.Rows.{DeliveryRow}
use messq.Store.Settle.{to_durations}
use messq.Store.Streams.Tables.{AuditEvent, CommandError, refused}
use messq.Store.Streams.Admin.{marshal_subjects_set, texts_eq, field_if, reaping, stream_event}
use messq.Store.Streams.Patch.{laid, laid_ms, named}
use messq.Store.Consumers.Start.{StartPosition, StreamAnchors, start_text, resolve_start_position}
use messq.Store.Consumers.Shrink.{shrink_deliveries}

-- A row of `consumers`, without its stream.
pub record ConsumerRow : Type 0 where
  pub name : Bytes
  pub filters : List Bytes
  pub ack_wait_ms : ℤ
  pub max_deliver : ℤ
  pub max_ack_pending : ℤ
  pub backoff_ms : List ℤ
  pub dead_policy : DeadPolicy
  pub cursor_seq : ℕ
  pub generation : ℕ
  pub paused : Bool
  pub created_at : ℤ

-- What the tables hold of a consumer's name: its row, the row whose name differs from it in letter case
-- only, the start that `meta` records, and its deliveries; and of its stream.
pub record ConsumerTables : Type 0 where
  pub stream_exists : Bool
  pub reap : Option ℤ
  pub anchors : StreamAnchors
  pub row : Option ConsumerRow
  pub other_case : Option ConsumerRow
  pub start : Option Bytes
  pub deliveries : List DeliveryRow
  pub events : List AuditEvent

pub data ConsumerError : Type 0 where
  store : CommandError → ConsumerError
  immutable_field : ConsumerError

unfoldable pub config_of : ConsumerRow → ConsumerConfig
unfolding to_durations mul64
config_of r = record {
  name = r.name;
  filters = r.filters;
  ack_wait = mul64 r.ack_wait_ms (pos millisecond);
  max_deliver = r.max_deliver;
  max_ack_pending = r.max_ack_pending;
  backoff = to_durations r.backoff_ms;
  dead_policy = r.dead_policy;
  paused = r.paused;
}

-- The columns that an update sets.
unfoldable pub set_config : ConsumerConfig → ConsumerRow → ConsumerRow
unfolding milliseconds marshal_subjects_set
set_config c r = record r {
  filters = marshal_subjects_set c.filters;
  ack_wait_ms = milliseconds c.ack_wait;
  max_deliver = c.max_deliver;
  max_ack_pending = c.max_ack_pending;
  backoff_ms = map milliseconds c.backoff;
  dead_policy = c.dead_policy;
}

abbrev pub durations_eq : List Duration → List Duration → Bool
durations_eq [] [] = true
durations_eq (a ∷ s) (b ∷ t) = let rest = durations_eq s t in if eq_ℤ a b then rest else false
durations_eq _ _ = false

abbrev pub policy_eq : DeadPolicy → DeadPolicy → Bool
policy_eq dlq dlq = true
policy_eq drop drop = true
policy_eq (other_policy a) (other_policy b) = bytes_eq a b
policy_eq _ _ = false

unfoldable pub consumer_config_diff : ConsumerConfig → ConsumerConfig → List Bytes
unfolding marshal_subjects_set bytes_eq
consumer_config_diff old next =
    field_if (texts_eq (marshal_subjects_set old.filters) (marshal_subjects_set next.filters))
      (codes "filters")
    ++ (field_if (eq_ℤ old.ack_wait next.ack_wait) (codes "ack_wait")
        ++ (field_if (eq_ℤ old.max_deliver next.max_deliver) (codes "max_deliver")
            ++ (field_if (eq_ℤ old.max_ack_pending next.max_ack_pending) (codes "max_ack_pending")
                ++ (field_if (durations_eq old.backoff next.backoff) (codes "backoff")
                    ++ field_if (policy_eq old.dead_policy next.dead_policy)
                        (codes "dead_policy")))))

abbrev pub event : Time → Bytes → ConsumerTables → ConsumerTables
event now name t = record t { events = t.events ++ (stream_event (unix_milli now) name ∷ []) }

-- What a creation did.
pub record Created : Type 0 where
  pub created : Bool
  pub updated : Bool
  pub clamped : Bool

abbrev pub require_stream : Bool → Result ConsumerError (Unit {0})
require_stream true = ok tt
require_stream false = err (store (refused (sentinel not_found)))

-- A start that is not recorded is not compared.
abbrev pub same_start : Option Bytes → Bytes → Result ConsumerError (Unit {0})
same_start none start = ok tt
same_start (some recorded) start = if bytes_eq recorded start then ok tt else err immutable_field

-- WHERE name = ?, of the exact name.
abbrev pub update_exact : (ConsumerRow → ConsumerRow) → Option ConsumerRow → Option ConsumerRow
update_exact f none = none
update_exact f (some r) = some (f r)

-- `duration_text` is Duration.String.
module _ (duration_text : Duration → Bytes) (now : Time) where
  unfoldable pub insert_consumer :
      ConsumerConfig
      → StartPosition
      → ConsumerTables
      → Result ConsumerError (ConsumerTables × Created)
  unfolding resolve_start_position set_config start_text unix_milli
  insert_consumer cfg start t = do
    at ← map_err store (resolve_start_position start now t.anchors)
    ok (
      event now (codes "consumer.create") (record t {
        row = some (
            set_config cfg (record {
              name = cfg.name;
              filters = [];
              ack_wait_ms = pos 0;
              max_deliver = pos 0;
              max_ack_pending = pos 0;
              backoff_ms = [];
              dead_policy = cfg.dead_policy;
              cursor_seq = at.0;
              generation = 1;
              paused = cfg.paused;
              created_at = unix_milli now;
            }));
        start = some (start_text duration_text start);
      }),
      record { created = true; updated = false; clamped = at.1 },
    )

  -- createConsumerCmd.applyUpdate
  unfoldable pub rewrite_consumer :
      ConsumerLimits
      → Bytes
      → ConsumerConfig
      → ConsumerRow
      → ConsumerTables
      → Result ConsumerError (ConsumerTables × Created)
  unfolding validate_dead_policy_for_stream validate_consumer_config set_config unix_milli
  rewrite_consumer l stream cfg found t = do
    map_err (λ e. store (refused e)) (validate_dead_policy_for_stream stream cfg.dead_policy)
    let next = record cfg { paused = found.paused }
    map_err (λ e. store (refused e)) (validate_consumer_config next l) >>= λ _. ok tt
    ok (
      event now (codes "consumer.update") (record t { row = update_exact (set_config next) t.row }),
      record { created = false; updated = true; clamped = false },
    )

  abbrev pub changed_config :
      ConsumerLimits
      → Bytes
      → ConsumerConfig
      → ConsumerRow
      → ConsumerTables
      → List Bytes
      → Result ConsumerError (ConsumerTables × Created)
  changed_config l stream cfg found t [] =
      ok (t, record { created = false; updated = false; clamped = false })
  changed_config l stream cfg found t (f ∷ fs) = rewrite_consumer l stream cfg found t

  abbrev pub found_row :
      ConsumerLimits
      → Bytes
      → ConsumerConfig
      → StartPosition
      → ConsumerTables
      → Option ConsumerRow
      → Option ConsumerRow
      → Result ConsumerError (ConsumerTables × Created)
  found_row l stream cfg start t none none = insert_consumer cfg start t
  found_row l stream cfg start t none (some other) =
      same_start t.start (start_text duration_text start)
      >> changed_config l stream cfg other t (consumer_config_diff (config_of other) cfg)
  found_row l stream cfg start t (some r) other =
      same_start t.start (start_text duration_text start)
      >> changed_config l stream cfg r t (consumer_config_diff (config_of r) cfg)

  -- createConsumerCmd.Apply. Where a row of the exact name is there, no other is.
  unfoldable pub create_consumer :
      ConsumerLimits
      → Bytes
      → ConsumerConfig
      → StartPosition
      → ConsumerTables
      → Result ConsumerError (ConsumerTables × Created)
  unfolding insert_consumer rewrite_consumer consumer_config_diff config_of start_text bytes_eq
  create_consumer l stream cfg start t =
      map_err store (reaping t.reap)
      >> (require_stream t.stream_exists >> found_row l stream cfg start t t.row t.other_case)

pub record ConsumerPatch : Type 0 where
  pub filters : Option (List Bytes)
  pub ack_wait_ms : Option ℤ
  pub max_deliver : Option ℤ
  pub max_ack_pending : Option ℤ
  pub backoff_ms : Option (List ℤ)
  pub dead_policy : Option DeadPolicy

abbrev pub laid_list : Option (List ℤ) → List Duration → List Duration
laid_list none stored = stored
laid_list (some ms) stored = to_durations ms

unfoldable pub apply_consumer_patch : ConsumerConfig → ConsumerPatch → ConsumerConfig × List Bytes
unfolding to_durations mul64
apply_consumer_patch before p = (
  record before {
    filters = laid p.filters before.filters;
    ack_wait = laid_ms p.ack_wait_ms before.ack_wait;
    max_deliver = laid p.max_deliver before.max_deliver;
    max_ack_pending = laid p.max_ack_pending before.max_ack_pending;
    backoff = laid_list p.backoff_ms before.backoff;
    dead_policy = laid p.dead_policy before.dead_policy;
  },
  named p.filters (codes "filters") (
      named p.ack_wait_ms (codes "ack_wait") (
        named p.max_deliver (codes "max_deliver") (
          named p.max_ack_pending (codes "max_ack_pending") (
            named p.backoff_ms (codes "backoff") (named p.dead_policy (codes "dead_policy") []))))),
)

-- A bound that is lowered drops rows first: the cursor, the deliveries, and the overshoot.
abbrev pub shrunk : Option ℤ → ConsumerRow → List DeliveryRow → ℕ × List DeliveryRow × ℕ
shrunk none r rows = (r.cursor_seq, rows, 0)
shrunk (some bound) r rows =
    if ltb_ℤ bound r.max_ack_pending
    then shrink_deliveries bound r.cursor_seq rows
    else (r.cursor_seq, rows, 0)

unfoldable pub patch_consumer :
    ConsumerLimits
    → Bytes
    → Time
    → ConsumerPatch
    → ConsumerTables
    → ConsumerRow
    → ConsumerConfig
    → Result ConsumerError (ConsumerTables × ℕ)
unfolding shrink_deliveries set_config validate_dead_policy_for_stream validate_consumer_config
    unix_milli
patch_consumer l stream now p t r next = do
  map_err (λ e. store (refused e)) (validate_dead_policy_for_stream stream next.dead_policy)
  map_err (λ e. store (refused e)) (validate_consumer_config next l) >>= λ _. ok tt
  let (cursor, rows, overshoot) = shrunk p.max_ack_pending r t.deliveries
  ok (
    event now (codes "consumer.update") (record t {
      row = some (set_config next (record r { cursor_seq = cursor }));
      deliveries = rows;
    }),
    overshoot,
  )

abbrev pub patched_consumer :
    ConsumerLimits
    → Bytes
    → Time
    → ConsumerPatch
    → ConsumerTables
    → ConsumerRow
    → ConsumerConfig × List Bytes
    → Result ConsumerError (ConsumerTables × ℕ)
patched_consumer l stream now p t r (next, []) = ok (t, 0)
patched_consumer l stream now p t r (next, f ∷ fs) = patch_consumer l stream now p t r next

abbrev pub with_row {ℓ} :
    {A : Type ℓ}
    → Option ConsumerRow
    → (ConsumerRow → Result ConsumerError A)
    → Result ConsumerError A
with_row none go = err (store (refused (sentinel not_found)))
with_row (some r) go = go r

-- updateConsumerCmd.Apply
unfoldable pub update_consumer :
    ConsumerLimits
    → Bytes
    → Time
    → ConsumerPatch
    → ConsumerTables
    → Result ConsumerError (ConsumerTables × ℕ)
unfolding patch_consumer apply_consumer_patch config_of
update_consumer l stream now p t =
    with_row t.row (λ r. patched_consumer l stream now p t r (apply_consumer_patch (config_of r) p))

unfoldable pub count_inflight : List DeliveryRow → ℕ
count_inflight [] = 0
count_inflight (r ∷ rs) =
    let rest = count_inflight rs in if is_ready r.state then rest else suc rest

-- deleteConsumerCmd.Apply: the rows that went, and those in flight.
unfoldable pub delete_consumer :
    Time → ConsumerTables → Result ConsumerError (ConsumerTables × ℕ × ℕ)
unfolding count_inflight unix_milli
delete_consumer now t = with_row t.row (λ r. ok (
  event now (codes "consumer.delete") (record t { row = none; start = none; deliveries = [] }),
  length t.deliveries,
  count_inflight t.deliveries,
))

abbrev pub same_flag : Bool → Bool → Bool
same_flag true b = b
same_flag false b = not b

-- setPausedCmd.Apply
unfoldable pub set_paused : Time → Bool → ConsumerTables → Result ConsumerError ConsumerTables
unfolding unix_milli
set_paused now paused t = with_row t.row (λ r.
    if same_flag r.paused paused
    then ok t
    else ok (
        event now (codes "consumer.pause")
          (record t { row = some (record r { paused = paused }) })))
