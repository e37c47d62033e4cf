-- ===== src/Store/Sweep/Idle.antt =====
-- SweepCmd.Apply (internal/store/sweep.go): the rows that a sweep does not touch.
use messq.Common.{
  ℤ, ℕ, ◌≡◌, refl, sym, ◌∙◌, List, [], ◌∷◌, Bool, true, false, Option, none, some, Result, err,
  >>=-eq-ok, ok-inj, arith,
}
use messq.Queue.Types.{Time, unix_milli}
use messq.Queue.Settle.{is_ready}
use messq.Queue.Sweep.{
  SweepRow, SweepPolicy, SweepDecision, SweepAction, sweep_skip, sweep_dead, sweep_redeliver,
  decide_sweep,
}
use messq.Store.Rows.{DeliveryRow}
use messq.Store.Settle.{
  StoreError, Event, dead_budget, planner, rows_changed, sink_failed, row_of, delete_where,
  update_where,
}
use messq.Store.Sweep.{
  SweepState, SweepCmd, sweep_fence, released, redeliver, bury, sink_answer, apply_decision,
  note_lateness, sweep_one, sweep_rows,
}

-- There is no such row, or nobody holds it.
abbrev pub is_idle : Option DeliveryRow → Bool
is_idle none = true
is_idle (some r) = is_ready r.state

fence-held : (r : SweepRow) (d : DeliveryRow) → sweep_fence r d ≡ true → is_ready d.state ≡ false
unfolding sweep_fence
fence-held r d h = ground arith

module _ (r : SweepRow) (m : ℕ) where
  delete_where-idle :
      (rows : List DeliveryRow)
      → is_idle (row_of m rows) ≡ true
      → row_of m (delete_where (sweep_fence r) rows).0 ≡ row_of m rows
  unfolding delete_where row_of
  delete_where-idle [] idle = refl
  delete_where-idle (d ∷ ds) idle =
      let held = fence-held r d in let rest = delete_where-idle ds in ground arith

  update_where-idle :
      (f : DeliveryRow → DeliveryRow)
      → ((d : DeliveryRow) → (f d).seq ≡ d.seq)
      → (rows : List DeliveryRow) → is_idle (row_of m rows) ≡ true
      → row_of m (update_where (sweep_fence r) f rows).0 ≡ row_of m rows
  unfolding update_where row_of
  update_where-idle f same [] idle = refl
  update_where-idle f same (d ∷ ds) idle =
      let held = fence-held r d in
      let number = same d in let rest = update_where-idle f same ds in ground arith

module _ {K : Type 0} (m : ℕ) where
  redeliver-rows :
      (r : SweepRow) (dec : SweepDecision) (now_ms : ℤ) (s : SweepState K)
      → is_idle (row_of m s.rows) ≡ true
      → row_of m (redeliver r dec now_ms s).rows ≡ row_of m s.rows
  unfolding redeliver released
  redeliver-rows r dec now_ms s idle =
      let same = update_where-idle r m (released dec) (λ _. refl) s.rows idle in ground arith

  bury-rows :
      (r : SweepRow) (dead : Event) (s : SweepState K)
      → is_idle (row_of m s.rows) ≡ true
      → row_of m (bury r dead s).rows ≡ row_of m s.rows
  unfolding bury
  bury-rows r dead s idle = let same = delete_where-idle r m s.rows idle in ground arith

  sink_answer-rows :
      (r : SweepRow) (s : SweepState K) (a : Result StoreError Event) {out : SweepState K}
      → is_idle (row_of m s.rows) ≡ true
      → sink_answer r s a ≡ Result.ok out
      → row_of m out.rows ≡ row_of m s.rows
  unfolding sink_answer
  sink_answer-rows r s (Result.ok dead) idle h = rw (sym (ok-inj h)) (bury-rows r dead s idle)
  sink_answer-rows r s (err dead_budget) idle h = rw (sym (ok-inj h)) refl
  sink_answer-rows r s (err (planner e)) idle h = cc
  sink_answer-rows r s (err (rows_changed n)) idle h = cc
  sink_answer-rows r s (err (sink_failed t)) idle h = cc

  apply_decision-rows :
      (cmd : SweepCmd K) (now : Time) (r : SweepRow) (p : SweepPolicy) (dec : SweepDecision)
      (s : SweepState K) (action : SweepAction) {out : SweepState K}
      → is_idle (row_of m s.rows) ≡ true
      → apply_decision cmd now r p dec s action ≡ Result.ok out
      → row_of m out.rows ≡ row_of m s.rows
  unfolding apply_decision
  apply_decision-rows cmd now r p dec s sweep_skip idle h = rw (sym (ok-inj h)) refl
  apply_decision-rows cmd now r p dec s sweep_redeliver idle h =
      rw (sym (ok-inj h)) (redeliver-rows r dec (unix_milli now) s idle)
  apply_decision-rows cmd now r p dec s sweep_dead idle h = sink_answer-rows r _ _ idle h

  sweep_one-rows :
      (cmd : SweepCmd K) (now : Time) (policy : Option SweepPolicy) (r : SweepRow)
      (s : SweepState K) {out : SweepState K}
      → is_idle (row_of m s.rows) ≡ true
      → sweep_one cmd now policy r s ≡ Result.ok out
      → row_of m out.rows ≡ row_of m s.rows
  unfolding sweep_one note_lateness
  sweep_one-rows cmd now none r s idle h = rw (sym (ok-inj h)) refl
  sweep_one-rows cmd now (some p) r s idle h =
      apply_decision-rows cmd now r p (decide_sweep r p (unix_milli now) cmd.jitter) _ _ idle h

  -- A sweep leaves alone what nobody holds: the row of a number that has no row, or a ready one, in
  -- the table is as it was, even when the sweep loaded it before it was settled.
  pub sweep_rows-idle :
      (cmd : SweepCmd K) (now : Time) (policy : Option SweepPolicy) (rs : List SweepRow)
      (s : SweepState K) {out : SweepState K}
      → is_idle (row_of m s.rows) ≡ true
      → sweep_rows cmd now policy rs s ≡ Result.ok out
      → row_of m out.rows ≡ row_of m s.rows
  unfolding sweep_rows
  sweep_rows-idle cmd now policy [] s idle h = rw (sym (ok-inj h)) refl
  sweep_rows-idle cmd now policy (r ∷ rs) s idle h =
      let (mid, one, rest) = >>=-eq-ok (sweep_one cmd now policy r s) _ h in
      let same = sweep_one-rows cmd now policy r s idle one in
      sweep_rows-idle cmd now policy rs mid (rw same idle) rest ∙ same
