-- ===== src/Store/Sweep.antt =====
-- internal/store/sweep.go: the third phase of SweepCmd.Apply, which decides and writes the expired rows
-- one by one, for the rows of one consumer. The metrics and the detail of events are left out.
pub mod Accounts
pub mod Idle
mod Examples
use messq.Common.{
  ℕ, suc, ◌+◌, List, [], ◌∷◌, ◌++◌, map, Bool, true, false, not, ◌&&◌, ◌||◌, Option, none, some,
  Bytes, bytes_eq, codes, ℤ, pos, ltb_ℤ, leb_ℤ, mul64, ◌==◌, if◌then◌else◌, Result, err, ◌>>=◌,
}
use messq.Queue.Types.{Duration, millisecond, Time, unix_milli, Jitter, other_policy}
use messq.Queue.Settle.{is_ready, ready}
use messq.Queue.Sweep.{
  SweepRow, SweepPolicy, SweepDecision, SweepAction, sweep_skip, sweep_dead, sweep_redeliver,
  decide_sweep,
}
use messq.Queue.Dead.{DeadCtx, DeadTrigger, by_ack_wait, by_policy_lowered}
use messq.Store.Rows.{DeliveryRow}
use messq.Store.Settle.{
  ConsumerColumns, to_durations, Event, msg_timeout, StoreError, dead_budget, delete_where,
  update_where,
}

-- A missing consumer has no policy.
unfoldable pub load_sweep_policy : Option ConsumerColumns → Option SweepPolicy
unfolding to_durations
load_sweep_policy none = none
load_sweep_policy (some c) = some (record {
  ack_wait = mul64 c.ack_wait_ms (pos millisecond);
  max_deliver = c.max_deliver;
  backoff = to_durations c.backoff_ms;
  generation = c.generation;
})

-- The counters of the result, and the largest lateness.
pub record SweepResult : Type 0 where
  pub redelivered : ℕ
  pub dead : ℕ
  pub skipped : ℕ
  pub deferred : ℕ
  pub woke : Bool
  pub max_lateness_ms : ℤ

-- The sink keeps its own state in `K`, such as the copy budget of the transaction.
pub record SweepState (K : Type 0) : Type 0 where
  pub rows : List DeliveryRow
  pub result : SweepResult
  pub events : List Event
  pub sink_state : K

pub record SweepCmd (K : Type 0) : Type 0 where
  pub sink : K → DeadCtx → Time → Result StoreError Event × K
  pub jitter : Option Jitter

-- seq = ? AND state = 1 AND attempts = ? AND generation = ?
unfoldable pub sweep_fence : SweepRow → DeliveryRow → Bool
sweep_fence r d =
    (d.seq == r.seq)
    && not (is_ready d.state)
    && (d.attempts == r.attempts)
    && (d.generation == r.generation)

abbrev pub timeout_event : SweepRow → ℤ → Event
timeout_event r now_ms = record {
  name = msg_timeout;
  seq = r.seq;
  attempt = r.attempts;
  at = now_ms;
}

unfoldable pub trigger_of : Bytes → DeadTrigger
unfolding bytes_eq
trigger_of s = if bytes_eq s (codes "policy_lowered") then by_policy_lowered else by_ack_wait

unfoldable pub sweep_dead_ctx : SweepRow → SweepPolicy → SweepDecision → DeadCtx
unfolding trigger_of
sweep_dead_ctx r p dec = record {
  stream = r.key.stream;
  consumer = r.key.consumer;
  subject = r.subject;
  seq = r.seq;
  msg_id = r.msg_id;
  trace_id = r.trace_id;
  attempts = r.attempts;
  generation = r.generation;
  max_deliver = p.max_deliver;
  cause = dec.cause;
  trigger = trigger_of dec.trigger;
  policy = other_policy [];
  last_reason = r.last_reason;
}

unfoldable pub released : SweepDecision → DeliveryRow → DeliveryRow
released dec d = record d {
  state = ready;
  visible_at = dec.visible_at;
  last_reason = codes "ack_wait";
}

module _ {K : Type 0} where
  -- A statement that changed no row counts as skipped.
  unfoldable pub redeliver : SweepRow → SweepDecision → ℤ → SweepState K → SweepState K
  unfolding update_where sweep_fence released
  redeliver r dec now_ms s =
      let (rows, n) = update_where (sweep_fence r) (released dec) s.rows in
      let res = s.result in
      let events = s.events ++ timeout_event r now_ms ∷ [] in
      if n == 0
      then record s {
        rows = rows;
        events = events;
        result = record res { skipped = suc res.skipped };
      }
      else record s {
        rows = rows;
        events = events;
        result = record res {
          redelivered = suc res.redelivered;
          woke = res.woke || leb_ℤ dec.visible_at now_ms;
        };
      }

  -- The row of a death that the sink accepted.
  unfoldable pub bury : SweepRow → Event → SweepState K → SweepState K
  unfolding delete_where sweep_fence
  bury r dead s =
      let (rows, n) = delete_where (sweep_fence r) s.rows in
      let res = s.result in
      let events = s.events ++ dead ∷ [] in
      if n == 0
      then record s {
        rows = rows;
        events = events;
        result = record res { skipped = suc res.skipped };
      }
      else record s { rows = rows; events = events; result = record res { dead = suc res.dead } }

  -- A spent copy budget leaves the row for a later sweep; any other failure aborts.
  unfoldable pub sink_answer :
      SweepRow → SweepState K → Result StoreError Event → Result StoreError (SweepState K)
  unfolding bury
  sink_answer r s (Result.ok dead) = Result.ok (bury r dead s)
  sink_answer r s (err dead_budget) =
      let res = s.result in
      Result.ok (record s { result = record res { deferred = suc res.deferred } })
  sink_answer r s (err e) = err e

  unfoldable pub apply_decision :
      SweepCmd K
      → Time
      → SweepRow
      → SweepPolicy
      → SweepDecision
      → SweepState K
      → SweepAction
      → Result StoreError (SweepState K)
  unfolding redeliver sink_answer sweep_dead_ctx
  apply_decision cmd now r p dec s sweep_skip =
      let res = s.result in
      Result.ok (record s { result = record res { skipped = suc res.skipped } })
  apply_decision cmd now r p dec s sweep_redeliver = Result.ok (redeliver r dec (unix_milli now) s)
  apply_decision cmd now r p dec s sweep_dead =
      let (answer, k) = cmd.sink s.sink_state (sweep_dead_ctx r p dec) now in
      sink_answer r
        (record s { events = s.events ++ timeout_event r (unix_milli now) ∷ []; sink_state = k })
        answer

  unfoldable pub note_lateness : SweepDecision → SweepState K → SweepState K
  note_lateness dec s =
      let res = s.result in
      record s {
        result = record res {
          max_lateness_ms =
              if ltb_ℤ res.max_lateness_ms dec.lateness_ms
              then dec.lateness_ms
              else res.max_lateness_ms;
        };
      }

  unfoldable pub sweep_one :
      SweepCmd K
      → Time
      → Option SweepPolicy
      → SweepRow
      → SweepState K
      → Result StoreError (SweepState K)
  unfolding apply_decision note_lateness
  sweep_one cmd now none r s =
      let res = s.result in
      Result.ok (record s { result = record res { skipped = suc res.skipped } })
  sweep_one cmd now (some p) r s =
      let dec = decide_sweep r p (unix_milli now) cmd.jitter in
      apply_decision cmd now r p dec (note_lateness dec s) dec.action

  -- The loaded rows, in their order.
  unfoldable pub sweep_rows :
      SweepCmd K
      → Time
      → Option SweepPolicy
      → List SweepRow
      → SweepState K
      → Result StoreError (SweepState K)
  unfolding sweep_one
  sweep_rows cmd now policy [] s = Result.ok s
  sweep_rows cmd now policy (r ∷ rs) s =
      sweep_one cmd now policy r s >>= sweep_rows cmd now policy rs
