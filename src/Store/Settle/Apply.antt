-- ===== src/Store/Settle/Apply.antt =====
-- internal/store/settle.go: applyOne, from the row of a token to its result.
use messq.Common.{
  List, [], ◌∷◌, ◌++◌, true, false, Option, none, some, ℤ, pos, not, if◌then◌else◌, Result, err,
  ◌>>=◌,
}
use messq.Errs.{bad_request}
use messq.Queue.Types.{Error, sentinel, milliseconds, Time, unix_milli}
use messq.Queue.Token.{Token}
use messq.Queue.Settle.{ItemStatus, stale, unknown, ready, SettleRequest, SettlePlan, plan_settle}
use messq.Queue.Dlq.{truncate_utf8}
use messq.Store.Rows.{DeliveryRow}
use messq.Store.Settle.{
  SettleConsumer, SettleItem, msg_ack_dup, msg_ack_stale, ItemResult, StoreError, planner, due,
  SettleState, SettleCmd, row_of,
}
use messq.Store.Settle.Action.{apply_action, event_of}

abbrev pub zero_result : Token → ℤ → ItemStatus → ItemResult
zero_result t most status = record {
  token = t;
  status = status;
  attempt = t.attempt;
  of = most;
  current_attempt = 0;
  deadline = none;
  retry_at = none;
  dead = false;
  late = false;
  held_for = pos 0;
  error = none;
}

unfoldable pub request :
    SettleCmd → SettleItem → SettleConsumer → Option DeliveryRow → SettleRequest
request cmd it cons row = record {
  verb = it.verb;
  token = it.token;
  generation = cons.generation;
  cursor_seq = cons.cursor_seq;
  config = cons.cfg;
  max_ack_wait = cmd.max_ack_wait;
  row_present = elim row [ none ↦ false | some r ↦ true ];
  row_state = elim row [ none ↦ ready | some r ↦ r.state ];
  row_attempts = elim row [ none ↦ 0 | some r ↦ r.attempts ];
  row_visible_at = elim row [ none ↦ pos 0 | some r ↦ r.visible_at ];
  row_delivered_at = elim row [ none ↦ pos 0 | some r ↦ r.delivered_at ];
  nak_delay = it.delay;
  jitter = cmd.jitter;
}

-- rejectionEvent: a rejection's audit row, unless its limiter holds it back.
unfoldable pub reject_dup : SettleCmd → Time → SettleItem → SettleState → SettleState
unfolding due
reject_dup cmd now it s =
    let (limiter, emit, _) = due s.dup_limiter (unix_milli now) (milliseconds cmd.interval) in
    record s {
      dup_limiter = limiter;
      events =
          if emit
          then s.events ++ event_of msg_ack_dup it.token (unix_milli now) ∷ []
          else s.events;
    }

unfoldable pub reject_stale : SettleCmd → Time → SettleItem → SettleState → SettleState
unfolding due
reject_stale cmd now it s =
    let (limiter, emit, _) = due s.stale_limiter (unix_milli now) (milliseconds cmd.interval) in
    record s {
      stale_limiter = limiter;
      events =
          if emit
          then s.events ++ event_of msg_ack_stale it.token (unix_milli now) ∷ []
          else s.events;
    }

-- A row that is not there: what the planner grants has a row, so this one is never written.
abbrev pub row_or_blank : Option DeliveryRow → DeliveryRow
row_or_blank (some r) = r
row_or_blank none = record {
  seq = 0;
  subject = [];
  state = ready;
  attempts = 0;
  visible_at = pos 0;
  generation = 0;
  delivered_at = pos 0;
  last_reason = [];
}

unfoldable pub granted :
    SettleCmd
    → Time
    → SettlePlan
    → SettleItem
    → Option DeliveryRow
    → SettleConsumer
    → SettleState
    → Result StoreError (ItemResult × SettleState)
unfolding apply_action truncate_utf8
granted cmd now plan it row cons s = do
  let reason = truncate_utf8 (cmd.trim it.reason) cmd.reason_cap
  let res = zero_result it.token cons.cfg.max_deliver ItemStatus.ok
  applied ← apply_action cmd now plan it (row_or_blank row) cons reason res s.rows plan.action
  let (res', rows, events) = applied
  Result.ok (res', record s { rows = rows; events = s.events ++ events })

-- What a plan's status calls for.
unfoldable pub answer :
    SettleCmd
    → Time
    → SettlePlan
    → SettleItem
    → Option DeliveryRow
    → SettleConsumer
    → SettleState
    → ItemStatus
    → Result StoreError (ItemResult × SettleState)
unfolding granted reject_dup reject_stale
answer cmd now plan it row cons s ItemStatus.ok = granted cmd now plan it row cons s
answer cmd now plan it row cons s stale =
    Result.ok (zero_result it.token cons.cfg.max_deliver stale, reject_dup cmd now it s)
answer cmd now plan it row cons s unknown =
    Result.ok (zero_result it.token cons.cfg.max_deliver unknown, s)
answer cmd now plan it row cons s status = Result.ok (
  record (zero_result it.token cons.cfg.max_deliver plan.status) {
    current_attempt = plan.current_attempt;
  },
  reject_stale cmd now it s,
)

-- A bad request is the item's own rejection; any other error of the planner aborts the batch.
unfoldable pub planned :
    SettleCmd
    → Time
    → SettleItem
    → Option DeliveryRow
    → SettleConsumer
    → SettleState
    → Result Error SettlePlan
    → Result StoreError (ItemResult × SettleState)
unfolding answer
planned cmd now it row cons s (Result.ok plan) = answer cmd now plan it row cons s plan.status
planned cmd now it row cons s (err (sentinel bad_request)) = Result.ok (
  record (zero_result it.token cons.cfg.max_deliver unknown) {
    error = some (sentinel bad_request);
  },
  s,
)
planned cmd now it row cons s (err e) = err (planner e)

-- `rows` is what was loaded before the batch's first item.
unfoldable pub apply_one :
    SettleCmd
    → Time
    → SettleItem
    → SettleConsumer
    → List DeliveryRow
    → SettleState
    → Result StoreError (ItemResult × SettleState)
unfolding planned request row_of
apply_one cmd now it cons loaded s =
    let row = row_of it.token.seq loaded in
    if not cons.found
    then Result.ok (zero_result it.token cons.cfg.max_deliver unknown, s)
    else planned cmd now it row cons s (plan_settle (request cmd it cons row) now)
