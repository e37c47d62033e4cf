-- ===== src/Store/Dead/Sink.antt =====
-- DLQSink as the sink of a sweep (internal/store/dead.go, sweep.go): what it keeps between the deaths of
-- one transaction are the tables of the dead-letter stream and the budget.
use messq.Common.{ℕ, suc, List, Option, Bytes, codes, Result, ok, err}
use messq.Queue.Types.{Time, unix_milli, DeadPolicy}
use messq.Queue.Dead.{DeadCtx, DeadBudget}
use messq.Store.Streams.Tables.{StoredMessage, Tables}
use messq.Store.Settle.{Event, msg_dead, StoreError, dead_budget, sink_failed}
use messq.Store.Dead.{DeadEvent, DeadError, out_of_budget, headers, store, DlqSink, Buried, dead}

-- `minted` counts the ids that were drawn.
pub record SinkState : Type 0 where
  pub dlq : Tables
  pub budget : Option DeadBudget
  pub minted : ℕ

abbrev pub event_of : DeadEvent → Event
event_of ev = record { name = msg_dead; seq = ev.ctx.seq; attempt = ev.ctx.attempts; at = ev.at }

abbrev pub error_of : DeadError → StoreError
error_of out_of_budget = dead_budget
error_of (headers e) = sink_failed (codes "dead-letter headers")
error_of (store e) = sink_failed (codes "dead-letter copy")

-- What a failed death has written is rolled back.
abbrev pub settled : SinkState → Result DeadError Buried → Result StoreError Event × SinkState
settled k (ok (ev, t, b)) =
    (ok (event_of ev), record { dlq = t; budget = b; minted = suc k.minted })
settled k (err e) = (err (error_of e), record k { minted = suc k.minted })

module _ (s : DlqSink) (new_id : ℕ → Bytes) (policy : Option DeadPolicy)
    (origin : List StoredMessage) where
  unfoldable pub dlq_sink : SinkState → DeadCtx → Time → Result StoreError Event × SinkState
  unfolding dead unix_milli
  dlq_sink k d now =
      settled k (dead s (new_id k.minted) (unix_milli now) policy origin k.dlq d k.budget)
