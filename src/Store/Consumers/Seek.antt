-- ===== src/Store/Consumers/Seek.antt =====
-- internal/store/seek.go: seekCmd, which moves a consumer's cursor and drops its deliveries.
pub mod Rehearsal
pub mod Moved
use messq.Common.{
  ℕ, suc, ◌+◌, List, [], ◌∷◌, ◌++◌, length, Bool, true, false, not, ◌&&◌, Option, none, some, Bytes,
  codes, ℤ, pos, eq_ℤ, ltb, ltb_ℤ, leb_ℤ, ◌==◌, ◌+ℤ◌, if◌then◌else◌, Result, ok, err, ◌>>=◌,
  map_err,
}
use messq.Common.Decimal.{format}
use messq.Errs.{bad_request}
use messq.Queue.Types.{sentinel, Time, unix_milli}
use messq.Queue.Settle.{is_ready}
use messq.Store.Rows.{DeliveryRow}
use messq.Store.Streams.Tables.{CommandError, refused, damage}
use messq.Store.Streams.Admin.{stream_event}
use messq.Store.Consumers.{
  ConsumerRow, ConsumerTables, ConsumerError, store, event, with_row, count_inflight,
}
use messq.Store.Consumers.Start.{
  StartKind, StartPosition, start_first, start_new, start_seq, start_time, other_start, Stamp,
  StreamAnchors, bounds, stream_bounds, clamp_cursor, first_at, resolve_start_position,
}

pub record SeekImpact : Type 0 where
  pub cursor_before : ℕ
  pub cursor_after : ℕ
  pub pending_dropped : ℕ
  pub messages : ℕ
  pub clamped : Bool
  pub warnings : List Bytes

-- The generation is that after the seek, and 0 where it is only planned.
pub record SeekResult : Type 0 where
  pub impact : SeekImpact
  pub generation : ℕ

unfoldable pub count_ready : List DeliveryRow → ℕ
count_ready [] = 0
count_ready (r ∷ rs) = let rest = count_ready rs in if is_ready r.state then suc rest else rest

-- count(*) … WHERE seq >= ?
unfoldable pub count_from : ℕ → List Stamp → ℕ
count_from n [] = 0
count_from n (m ∷ ms) = let rest = count_from n ms in if ltb m.seq n then rest else suc rest

abbrev pub is_none : Option Stamp → Bool
is_none none = true
is_none (some m) = false

-- What is reported. The time of a relative start is 0 here, so that every message is at or after it.
unfoldable pub seek_clamped : StartPosition → List Stamp → ℕ → ℕ → ℕ → Bool
unfolding clamp_cursor first_at
seek_clamped s stamps first next target = elim s.kind [
  | start_first ↦ false
  | start_new ↦ false
  | start_seq ↦ not (eq_ℤ s.seq (pos target)) && (target == clamp_cursor s.seq first next)
  | start_time ↦ is_none (first_at s.time stamps)
  | other_start ↦ false
]

unfoldable pub seek_warnings : ℕ → ℕ → List Bytes
unfolding format
seek_warnings dropped messages =
    (if ltb 0 dropped
      then (format dropped
          ++ codes " outstanding ack token(s) will fence as stale on this consumer")
        ∷ []
      else [])
    ++ (if ltb 0 messages
        then (format messages ++ codes " message(s) will be redelivered from the moved cursor") ∷ []
        else [])

-- DELETE and UPDATE, the number of rows deleted checked against the plan. The event is given no time.
abbrev pub move_cursor :
    SeekImpact → ConsumerRow → ConsumerTables → Result ConsumerError (ConsumerTables × SeekResult)
move_cursor impact r t =
    if length t.deliveries == impact.pending_dropped
    then ok (
      record t {
        row = some (record r { cursor_seq = impact.cursor_after; generation = suc r.generation });
        deliveries = [];
        events = t.events ++ (stream_event (pos 0) (codes "consumer.seek") ∷ []);
      },
      record { impact = impact; generation = suc r.generation },
    )
    else err (store (damage (codes "seek: dropped another number than the plan said")))

unfoldable pub seek_impact : StartPosition → ConsumerTables → ConsumerRow → ℕ → ℕ × ℕ → SeekImpact
unfolding count_ready count_inflight count_from seek_clamped seek_warnings
seek_impact to t r target (first, next) =
    let dropped = count_ready t.deliveries + count_inflight t.deliveries in
    let remaining = count_from target t.anchors.stamps in
    record {
      cursor_before = r.cursor_seq;
      cursor_after = target;
      pending_dropped = dropped;
      messages = remaining;
      clamped = seek_clamped to t.anchors.stamps first next target;
      warnings = seek_warnings dropped remaining;
    }

-- seekCmd.Apply. A position that was moved up past what is no longer there is refused.
abbrev pub seek_to :
    StartPosition
    → Bool
    → Time
    → ConsumerTables
    → ConsumerRow
    → ℕ × Bool
    → Result ConsumerError (ConsumerTables × SeekResult)
seek_to to dry_run now t r (target, true) = err (store (refused (sentinel bad_request)))
seek_to to dry_run now t r (target, false) = do
  at ← map_err store (stream_bounds t.anchors t.anchors.next)
  let impact = seek_impact to t r target at
  if dry_run then ok (t, record { impact = impact; generation = 0 }) else move_cursor impact r t

unfoldable pub seek_consumer :
    StartPosition
    → Bool
    → Time
    → ConsumerTables
    → Result ConsumerError (ConsumerTables × SeekResult)
unfolding resolve_start_position seek_impact unix_milli
seek_consumer to dry_run now t = with_row t.row (λ r.
    map_err store (resolve_start_position to now t.anchors) >>= λ at. seek_to to dry_run now t r at)
