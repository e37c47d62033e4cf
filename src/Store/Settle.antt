-- ===== src/Store/Settle.antt =====
-- internal/store/settle.go and settle_impl.go: one settle of a batch, decided by the planner and
-- written through the fence. An event carries its name, its number and its attempt; its detail text
-- and the metrics are left out.
pub mod Action
pub mod Apply
pub mod Fenced
pub mod Writes
pub mod Writing
pub mod Replay
pub mod Schedule
use messq.Common.{
  ℕ, suc, ◌+◌, List, [], ◌∷◌, ◌++◌, map, Bool, true, false, ◌&&◌, ◌||◌, Option, none, some, Bytes,
  ℤ, pos, ltb_ℤ, leb_ℤ, eq_ℤ, sub64, mul64, ◌==◌, not, if◌then◌else◌, Result, err, ◌>>=◌, map_err,
}
use messq.Errs.{Sentinel, bad_request}
use messq.Queue.Types.{
  Error, sentinel, Duration, millisecond, milliseconds, Time, unix_milli, Jitter, ConsumerConfig,
  default_consumer_config, other_policy,
}
use messq.Queue.Token.{Token}
use messq.Queue.Settle.{
  Verb, ItemStatus, stale, stale_ack, wrong_generation, unknown, DeliveryState, ready, inflight,
  SettleAction, noop, act_ack, act_release, act_extend, act_dead, DeadCause, no_cause, max_deliver,
  terminated, SettleRequest, SettlePlan, plan_settle, is_ready,
}
use messq.Queue.Dlq.{truncate_utf8}
use messq.Queue.Dead.{DeadCtx, DeadTrigger, by_nak, by_term}
use messq.Store.Rows.{DeliveryRow}

-- What of the consumer's row a settle reads.
pub record SettleConsumer : Type 0 where
  pub found : Bool
  pub generation : ℕ
  pub cursor_seq : ℕ
  pub cfg : ConsumerConfig

-- The columns of the row, the backoff list parsed from its JSON.
pub record ConsumerColumns : Type 0 where
  pub generation : ℕ
  pub cursor_seq : ℕ
  pub ack_wait_ms : ℤ
  pub max_deliver : ℤ
  pub backoff_ms : List ℤ

unfoldable pub to_durations : List ℤ → List Duration
to_durations ms = map (λ v. mul64 v (pos millisecond)) ms

unfoldable pub load_settle_consumer : Bytes → Option ConsumerColumns → SettleConsumer
unfolding default_consumer_config to_durations
load_settle_consumer name none = record {
  found = false;
  generation = 0;
  cursor_seq = 0;
  cfg = record {
    name = [];
    filters = [];
    ack_wait = pos 0;
    max_deliver = pos 0;
    max_ack_pending = pos 0;
    backoff = [];
    dead_policy = other_policy [];
    paused = false;
  };
}
load_settle_consumer name (some c) =
    let base = default_consumer_config name in
    record {
      found = true;
      generation = c.generation;
      cursor_seq = c.cursor_seq;
      cfg = record base {
        ack_wait = mul64 c.ack_wait_ms (pos millisecond);
        max_deliver = c.max_deliver;
        backoff = base.backoff ++ to_durations c.backoff_ms;
      };
    }

pub record SettleItem : Type 0 where
  pub token : Token
  pub verb : Verb
  pub delay : Option Duration
  pub reason : Bytes

-- The names of the audit events.
pub data EventName : Type 0 where
  msg_ack msg_nak msg_extend msg_term msg_ack_dup msg_ack_stale msg_dead msg_timeout : EventName

pub record Event : Type 0 where
  pub name : EventName
  pub seq : ℕ
  pub attempt : ℕ
  pub at : ℤ

pub record ItemResult : Type 0 where
  pub token : Token
  pub status : ItemStatus
  pub attempt : ℕ
  pub of : ℤ
  pub current_attempt : ℕ
  pub deadline : Option ℤ
  pub retry_at : Option ℤ
  pub dead : Bool
  pub late : Bool
  pub held_for : Duration
  pub error : Option Error

-- What aborts a batch. A sink's own failures are its text.
pub data StoreError : Type 0 where
  planner : Error → StoreError
  rows_changed : ℕ → StoreError
  dead_budget : StoreError
  sink_failed : Bytes → StoreError

-- The repeat limiter of one consumer's rejection events of one name.
pub record RejectionLimiter : Type 0 where
  pub last_ms : ℤ
  pub suppressed : ℕ

unfoldable pub due : RejectionLimiter → ℤ → ℤ → RejectionLimiter × Bool × ℕ
due r now_ms interval_ms =
    if eq_ℤ r.last_ms (pos 0) || leb_ℤ interval_ms (sub64 now_ms r.last_ms)
    then (record { last_ms = now_ms; suppressed = 0 }, true, r.suppressed)
    else (record r { suppressed = suc r.suppressed }, false, 0)

-- The consumer's rows, its two limiters, and the events written so far.
pub record SettleState : Type 0 where
  pub rows : List DeliveryRow
  pub dup_limiter : RejectionLimiter
  pub stale_limiter : RejectionLimiter
  pub events : List Event

-- The command's fields. The sink is the interface DeadSink; `trim` is strings.TrimSpace, and
-- `ids` gives the id and the trace id that the join with `messages` finds for a number.
pub record SettleCmd : Type 0 where
  pub sink : DeadCtx → Time → Result StoreError Event
  pub trim : Bytes → Bytes
  pub ids : ℕ → Bytes × Bytes
  pub interval : Duration
  pub jitter : Option Jitter
  pub reason_cap : ℕ
  pub max_ack_wait : Duration

-- rows[seq]
unfoldable pub row_of : ℕ → List DeliveryRow → Option DeliveryRow
row_of n [] = none
row_of n (r ∷ rs) = let rest = row_of n rs in if r.seq == n then some r else rest

-- seq = ? AND attempts = ? AND generation = ?
unfoldable pub fence : Token → DeliveryRow → Bool
fence t r = (r.seq == t.seq) && (r.attempts == t.attempt) && (r.generation == t.generation)

-- The statements: the table, and the number of rows that they changed.
unfoldable pub delete_where : (DeliveryRow → Bool) → List DeliveryRow → List DeliveryRow × ℕ
delete_where p [] = ([], 0)
delete_where p (r ∷ rs) =
    let (rest, n) = delete_where p rs in if p r then (rest, suc n) else (r ∷ rest, n)

unfoldable pub update_where :
    (DeliveryRow → Bool) → (DeliveryRow → DeliveryRow) → List DeliveryRow → List DeliveryRow × ℕ
update_where p f [] = ([], 0)
update_where p f (r ∷ rs) =
    let (rest, n) = update_where p f rs in if p r then (f r ∷ rest, suc n) else (r ∷ rest, n)

-- A statement that changed any other number of rows than one aborts the batch.
unfoldable pub changed : List DeliveryRow × ℕ → Result StoreError (List DeliveryRow)
changed (rows, n) = if n == 1 then Result.ok rows else err (rows_changed n)
