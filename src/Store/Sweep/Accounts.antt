-- ===== src/Store/Sweep/Accounts.antt =====
-- SweepCmd.Apply (internal/store/sweep.go): every expired row is counted once.
use messq.Common.{
  ℤ, ℕ, suc, ◌+◌, ◌≡◌, List, [], ◌∷◌, Option, none, some, Result, err, >>=-eq-ok, ok-inj, arith,
  length, sym,
}
use messq.Queue.Types.{Time, unix_milli}
use messq.Queue.Sweep.{
  SweepRow, SweepPolicy, SweepDecision, SweepAction, sweep_skip, sweep_dead, sweep_redeliver,
  decide_sweep,
}
use messq.Store.Settle.{StoreError, Event, dead_budget, planner, rows_changed, sink_failed}
use messq.Store.Sweep.{
  SweepResult, SweepState, SweepCmd, redeliver, bury, sink_answer, apply_decision, note_lateness,
  sweep_one, sweep_rows,
}

-- The rows that the counters of a result have counted.
abbrev pub counted : SweepResult → ℕ
counted res = res.redelivered + res.dead + res.skipped + res.deferred

module _ {K : Type 0} where
  redeliver-counts :
      (r : SweepRow) (dec : SweepDecision) (now_ms : ℤ) (s : SweepState K)
      → counted (redeliver r dec now_ms s).result ≡ suc (counted s.result)
  unfolding redeliver
  redeliver-counts r dec now_ms s = ground arith

  bury-counts :
      (r : SweepRow) (dead : Event) (s : SweepState K)
      → counted (bury r dead s).result ≡ suc (counted s.result)
  unfolding bury
  bury-counts r dead s = ground arith

  sink_answer-counts :
      (r : SweepRow) (s : SweepState K) (a : Result StoreError Event) {out : SweepState K}
      → sink_answer r s a ≡ Result.ok out
      → counted out.result ≡ suc (counted s.result)
  unfolding sink_answer
  sink_answer-counts r s (Result.ok dead) h = rw (sym (ok-inj h)) (bury-counts r dead s)
  sink_answer-counts r s (err dead_budget) h = rw (sym (ok-inj h)) (omega arith)
  sink_answer-counts r s (err (planner e)) h = cc
  sink_answer-counts r s (err (rows_changed n)) h = cc
  sink_answer-counts r s (err (sink_failed t)) h = cc

  apply_decision-counts :
      (cmd : SweepCmd K) (now : Time) (r : SweepRow) (p : SweepPolicy) (dec : SweepDecision)
      (s : SweepState K) (action : SweepAction) {out : SweepState K}
      → apply_decision cmd now r p dec s action ≡ Result.ok out
      → counted out.result ≡ suc (counted s.result)
  unfolding apply_decision
  apply_decision-counts cmd now r p dec s sweep_skip h = rw (sym (ok-inj h)) (omega arith)
  apply_decision-counts cmd now r p dec s sweep_redeliver h =
      rw (sym (ok-inj h)) (redeliver-counts r dec _ s)
  apply_decision-counts cmd now r p dec s sweep_dead h = sink_answer-counts r _ _ h

  sweep_one-counts :
      (cmd : SweepCmd K) (now : Time) (policy : Option SweepPolicy) (r : SweepRow)
      (s : SweepState K) {out : SweepState K}
      → sweep_one cmd now policy r s ≡ Result.ok out
      → counted out.result ≡ suc (counted s.result)
  unfolding sweep_one note_lateness
  sweep_one-counts cmd now none r s h = rw (sym (ok-inj h)) (omega arith)
  sweep_one-counts cmd now (some p) r s h =
      apply_decision-counts cmd now r p (decide_sweep r p (unix_milli now) cmd.jitter) _ _ h

  -- Every expired row is counted once: a sweep that ends well has redelivered, buried, skipped or
  -- deferred as many rows as it loaded.
  pub sweep_rows-counts :
      (cmd : SweepCmd K) (now : Time) (policy : Option SweepPolicy) (rs : List SweepRow)
      (s : SweepState K) {out : SweepState K}
      → sweep_rows cmd now policy rs s ≡ Result.ok out
      → counted out.result ≡ counted s.result + length rs
  unfolding sweep_rows
  sweep_rows-counts cmd now policy [] s h = rw (sym (ok-inj h)) (omega arith)
  sweep_rows-counts cmd now policy (r ∷ rs) s h =
      let (mid, one, rest) = >>=-eq-ok (sweep_one cmd now policy r s) _ h in
      let a = sweep_one-counts cmd now policy r s one in
      let b = sweep_rows-counts cmd now policy rs mid rest in omega arith
