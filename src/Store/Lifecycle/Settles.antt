-- ===== src/Store/Lifecycle/Settles.antt =====
-- SettleCmd.Apply and SweepCmd.Apply (internal/store/settle.go, sweep.go): what they write keeps the
-- rows of a sound consumer sound.
use messq.Common.{
  ◌<◌, ◌≡◌, refl, subst, List, [], ◌∷◌, ◌++◌, true, ◌==◌, All, arith, ℤ, if_both, Option, none,
  some, Result, ok, err, ok-inj, >>=-eq-ok,
}
use messq.Queue.Types.{Time, unix_milli}
use messq.Queue.Token.{Token}
use messq.Queue.Sweep.{
  SweepRow, SweepPolicy, SweepDecision, SweepAction, sweep_skip, sweep_dead, sweep_redeliver,
  decide_sweep,
}
use messq.Store.Rows.{Message, DeliveryRow}
use messq.Store.Fetch.{ConsumerState}
use messq.Store.Settle.{
  SettleConsumer, SettleItem, ItemResult, SettleState, SettleCmd, Event, StoreError, dead_budget,
  fence, delete_where, update_where,
}
use messq.Store.Settle.Apply.{apply_one}
use messq.Store.Settle.Writing.{
  Written, released_row, extended_row, extend_fence, apply_one-Written,
}
use messq.Store.Sweep.{
  SweepState, SweepCmd, sweep_fence, released, redeliver, bury, sink_answer, apply_decision,
  note_lateness, sweep_one, sweep_rows, sweep_dead_ctx, timeout_event,
}
use messq.Store.Lifecycle.{RowOk, RowsOk}
use messq.Store.Lifecycle.Evolve.{Evolves-RowsOk, delete_where-Evolves, update_where-Evolves}

All-every :
    (P : DeliveryRow → Type 0) (rows : List DeliveryRow) → ((r : DeliveryRow) → P r) → All P rows
All-every P [] h = tt
All-every P (r ∷ rows) h = (h r, All-every P rows h)

fence-delivered : (t : Token) (r : DeliveryRow) → 0 < t.attempt → fence t r ≡ true → 0 < r.attempts
unfolding fence
fence-delivered t r lt h = ground arith

extend_fence-delivered :
    (t : Token) (r : DeliveryRow) → 0 < t.attempt → extend_fence t r ≡ true → 0 < r.attempts
extend_fence-delivered t r lt h = fence-delivered t r lt (ground arith)

module _ (messages : List Message) (st : ConsumerState) where
  abbrev Keeps : List DeliveryRow → List DeliveryRow → Type 0
  Keeps before after = RowsOk messages st before → RowsOk messages st after

  -- A token is of a delivery, so its attempt is from 1 on.
  Keeps-Written : (t : Token) → 0 < t.attempt → Written t Keeps
  Keeps-Written t lt = record {
    nothing = λ rows h. h;
    deleted = λ rows. Evolves-RowsOk messages st rows (delete_where (fence t) rows).0 (
        delete_where-Evolves (fence t) rows
          (All-every (λ r. fence t r ≡ true → 0 < r.attempts) rows (λ r. fence-delivered t r lt)));
    released = λ visible reason rows.
        Evolves-RowsOk messages st rows
          (update_where (fence t) (released_row visible reason) rows).0
          (update_where-Evolves (fence t) (released_row visible reason) rows
            (λ r. (refl, (refl, refl), refl))
            (All-every (λ r. fence t r ≡ true → 0 < r.attempts) rows
              (λ r. fence-delivered t r lt)));
    extended = λ visible rows.
        Evolves-RowsOk messages st rows
          (update_where (extend_fence t) (extended_row visible) rows).0
          (update_where-Evolves (extend_fence t) (extended_row visible) rows
            (λ r. (refl, (refl, refl), refl))
            (All-every (λ r. extend_fence t r ≡ true → 0 < r.attempts) rows
              (λ r. extend_fence-delivered t r lt)));
  }

  pub apply_one-RowsOk :
      (cmd : SettleCmd) (now : Time) (it : SettleItem) (cons : SettleConsumer)
      (loaded : List DeliveryRow) (s : SettleState) {out : ItemResult × SettleState}
      → 0 < it.token.attempt
      → apply_one cmd now it cons loaded s ≡ Result.ok out
      → RowsOk messages st s.rows
      → RowsOk messages st out.1.rows
  apply_one-RowsOk cmd now it cons loaded s lt h =
      apply_one-Written cmd now it Keeps (Keeps-Written it.token lt) cons loaded s h

  -- A row in flight was delivered.
  sweep_fence-delivered :
      (r : SweepRow) (rows : List DeliveryRow)
      → All (RowOk messages st) rows
      → All (λ d. sweep_fence r d ≡ true → 0 < d.attempts) rows
  unfolding sweep_fence
  sweep_fence-delivered r [] h = tt
  sweep_fence-delivered r (d ∷ rows) ((_, _, _, untouched), h) =
      (λ hit. ground (arith, untouched), sweep_fence-delivered r rows h)

  module _ {K : Type 0} where
    redeliver-RowsOk :
        (r : SweepRow) (dec : SweepDecision) (now_ms : ℤ) (s : SweepState K)
        → Keeps s.rows (redeliver r dec now_ms s).rows
    unfolding redeliver released
    redeliver-RowsOk r dec now_ms s h =
        let after =
          Evolves-RowsOk messages st s.rows (update_where (sweep_fence r) (released dec) s.rows).0
            (update_where-Evolves (sweep_fence r) (released dec) s.rows
              (λ d. (refl, (refl, refl), refl)) (sweep_fence-delivered r s.rows h.each))
            h in
        if_both (λ (x : SweepState K). RowsOk messages st x.rows)
          ((update_where (sweep_fence r) (released dec) s.rows).1 == 0) _ _ (λ _. after)
          (λ _. after)

    bury-RowsOk :
        (r : SweepRow) (dead : Event) (s : SweepState K) → Keeps s.rows (bury r dead s).rows
    unfolding bury
    bury-RowsOk r dead s h =
        let after =
          Evolves-RowsOk messages st s.rows (delete_where (sweep_fence r) s.rows).0
            (delete_where-Evolves (sweep_fence r) s.rows (sweep_fence-delivered r s.rows h.each))
            h in
        if_both (λ (x : SweepState K). RowsOk messages st x.rows)
          ((delete_where (sweep_fence r) s.rows).1 == 0) _ _ (λ _. after) (λ _. after)

    sink_answer-RowsOk :
        (r : SweepRow) (s s' : SweepState K) (answer : Result StoreError Event)
        → sink_answer r s answer ≡ ok s'
        → Keeps s.rows s'.rows
    unfolding sink_answer
    sink_answer-RowsOk r s s' (ok dead) e =
        subst (λ (x : SweepState K). Keeps s.rows x.rows) (ok-inj e) (bury-RowsOk r dead s)
    sink_answer-RowsOk r s s' (err dead_budget) e =
        subst (λ (x : SweepState K). Keeps s.rows x.rows) (ok-inj e) (λ h. h)
    sink_answer-RowsOk r s s' (err other) e = cc

    apply_decision-RowsOk :
        (cmd : SweepCmd K) (now : Time) (r : SweepRow) (p : SweepPolicy) (dec : SweepDecision)
        (s s' : SweepState K) (action : SweepAction)
        → apply_decision cmd now r p dec s action ≡ ok s'
        → Keeps s.rows s'.rows
    unfolding apply_decision
    apply_decision-RowsOk cmd now r p dec s s' sweep_skip e =
        subst (λ (x : SweepState K). Keeps s.rows x.rows) (ok-inj e) (λ h. h)
    apply_decision-RowsOk cmd now r p dec s s' sweep_redeliver e =
        subst (λ (x : SweepState K). Keeps s.rows x.rows) (ok-inj e)
          (redeliver-RowsOk r dec (unix_milli now) s)
    apply_decision-RowsOk cmd now r p dec s s' sweep_dead e =
        sink_answer-RowsOk r
          (record s {
            events = s.events ++ timeout_event r (unix_milli now) ∷ [];
            sink_state = (cmd.sink s.sink_state (sweep_dead_ctx r p dec) now).1;
          })
          s' (cmd.sink s.sink_state (sweep_dead_ctx r p dec) now).0 e

    sweep_one-RowsOk :
        (cmd : SweepCmd K) (now : Time) (p : Option SweepPolicy) (r : SweepRow)
        (s s' : SweepState K)
        → sweep_one cmd now p r s ≡ ok s'
        → Keeps s.rows s'.rows
    unfolding sweep_one note_lateness
    sweep_one-RowsOk cmd now none r s s' e =
        subst (λ (x : SweepState K). Keeps s.rows x.rows) (ok-inj e) (λ h. h)
    sweep_one-RowsOk cmd now (some p) r s s' e =
        let dec = decide_sweep r p (unix_milli now) cmd.jitter in
        apply_decision-RowsOk cmd now r p dec (note_lateness dec s) s' dec.action e

    pub sweep_rows-RowsOk :
        (cmd : SweepCmd K) (now : Time) (p : Option SweepPolicy) (rs : List SweepRow)
        (s s' : SweepState K)
        → sweep_rows cmd now p rs s ≡ ok s'
        → RowsOk messages st s.rows
        → RowsOk messages st s'.rows
    unfolding sweep_rows
    sweep_rows-RowsOk cmd now p [] s s' e =
        subst (λ (x : SweepState K). Keeps s.rows x.rows) (ok-inj e) (λ h. h)
    sweep_rows-RowsOk cmd now p (r ∷ rs) s s' e =
        let (mid, first, more) = >>=-eq-ok (sweep_one cmd now p r s) _ e in
        λ h. sweep_rows-RowsOk cmd now p rs mid s' more (sweep_one-RowsOk cmd now p r s mid first h)
