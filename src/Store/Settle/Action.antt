-- ===== src/Store/Settle/Action.antt =====
-- internal/store/settle_impl.go: applyAction, which writes what a plan decided.
use messq.Common.{
  List, [], ◌∷◌, true, ◌&&◌, ◌||◌, some, Bytes, ℤ, pos, ltb_ℤ, eq_ℤ, mul64, not, if◌then◌else◌,
  Result, ◌>>=◌,
}
use messq.Queue.Types.{millisecond, Time, unix_milli, other_policy}
use messq.Queue.Token.{Token}
use messq.Queue.Settle.{
  ready, SettleAction, noop, act_ack, act_release, act_extend, act_dead, DeadCause, terminated,
  SettlePlan, is_ready,
}
use messq.Queue.Dead.{DeadCtx, DeadTrigger, by_nak, by_term}
use messq.Store.Rows.{DeliveryRow}
use messq.Store.Settle.{
  SettleConsumer, SettleItem, EventName, msg_ack, msg_nak, msg_extend, msg_term, Event, ItemResult,
  StoreError, SettleCmd, fence, delete_where, update_where, changed,
}

unfoldable pub dead_verb_name : DeadCause → EventName
dead_verb_name terminated = msg_term
dead_verb_name _ = msg_nak

unfoldable pub settle_trigger_for : DeadCause → DeadTrigger
settle_trigger_for terminated = by_term
settle_trigger_for _ = by_nak

abbrev pub event_of : EventName → Token → ℤ → Event
event_of name t now_ms = record { name = name; seq = t.seq; attempt = t.attempt; at = now_ms }

abbrev pub clamp : ℤ → ℤ
clamp x = if ltb_ℤ x (pos 0) then pos 0 else x

unfoldable pub dead_ctx :
    Bytes × Bytes → SettleItem → Bytes → SettleConsumer → SettlePlan → Bytes → DeadCtx
unfolding settle_trigger_for
dead_ctx (id, trace) it subject cons plan reason = record {
  stream = it.token.stream;
  consumer = it.token.consumer;
  subject = subject;
  seq = it.token.seq;
  msg_id = id;
  trace_id = trace;
  attempts = it.token.attempt;
  generation = it.token.generation;
  max_deliver = cons.cfg.max_deliver;
  cause = plan.cause;
  trigger = settle_trigger_for plan.cause;
  policy = other_policy [];
  last_reason = reason;
}

-- What a mutation does: the result of the item, the table, and the events.
abbrev pub Applied : Type 0
Applied = ItemResult × List DeliveryRow × List Event

-- Delete the row through the fence.
unfoldable pub delete_fenced : Token → List DeliveryRow → Result StoreError (List DeliveryRow)
unfolding delete_where fence changed
delete_fenced t rows = changed (delete_where (fence t) rows)

unfoldable pub release_fenced :
    Token → ℤ → Bytes → List DeliveryRow → Result StoreError (List DeliveryRow)
unfolding update_where fence changed
release_fenced t visible reason rows = changed (
    update_where (fence t)
      (λ r. record r { state = ready; visible_at = visible; last_reason = reason }) rows)

unfoldable pub extend_fenced : Token → ℤ → List DeliveryRow → Result StoreError (List DeliveryRow)
unfolding update_where fence changed
extend_fenced t visible rows = changed (
    update_where (λ r. fence t r && not (is_ready r.state)) (λ r. record r { visible_at = visible })
      rows)

-- `row` is the row that the planner saw.
unfoldable pub apply_action :
    SettleCmd
    → Time
    → SettlePlan
    → SettleItem
    → DeliveryRow
    → SettleConsumer
    → Bytes
    → ItemResult
    → List DeliveryRow
    → SettleAction
    → Result StoreError Applied
unfolding delete_fenced release_fenced extend_fenced dead_verb_name dead_ctx
apply_action cmd now plan it row cons reason res rows noop = Result.ok (res, rows, [])
apply_action cmd now plan it row cons reason res rows act_ack = do
  rows' ← delete_fenced it.token rows
  let res' = record res {
    held_for = mul64 (clamp plan.held_ms) (pos millisecond);
    late = plan.late;
  }
  Result.ok (res', rows', event_of msg_ack it.token (unix_milli now) ∷ [])
apply_action cmd now plan it row cons reason res rows act_release = do
  rows' ← release_fenced it.token plan.new_visible_at reason rows
  let moved = not (is_ready row.state) || not (eq_ℤ row.visible_at plan.new_visible_at)
  let events = if moved then event_of msg_nak it.token (unix_milli now) ∷ [] else []
  Result.ok (record res { retry_at = some plan.new_visible_at }, rows', events)
apply_action cmd now plan it row cons reason res rows act_extend = do
  rows' ← extend_fenced it.token plan.new_visible_at rows
  let extended = event_of msg_extend it.token (unix_milli now)
  Result.ok (record res { deadline = some plan.new_visible_at }, rows', extended ∷ [])
apply_action cmd now plan it row cons reason res rows act_dead = do
  dead ← cmd.sink (dead_ctx (cmd.ids it.token.seq) it row.subject cons plan reason) now
  rows' ← delete_fenced it.token rows
  let verb = event_of (dead_verb_name plan.cause) it.token (unix_milli now)
  Result.ok (record res { dead = true }, rows', verb ∷ dead ∷ [])
