-- ===== src/Store/Dead/NoLoss.antt =====
-- SweepCmd.Apply with DLQSink (internal/store/sweep.go, dead.go): no row is removed without its copy.
use messq.Common.{
  ℕ, suc, ◌≡◌, ◌≢◌, refl, sym, ap, subst, ◌⊎◌, inl, inr, List, [], ◌∷◌, ◌++◌, Bool, true, Option,
  none, some, Bytes, ℤ, ◌==◌, Result, ok, err, >>=-eq-ok, ok-inj, arith, if_both,
}
use messq.Queue.Types.{Time, unix_milli, Jitter, DeadPolicy, dlq}
use messq.Queue.Sweep.{
  SweepRow, SweepPolicy, SweepDecision, SweepAction, sweep_skip, sweep_dead, sweep_redeliver,
  decide_sweep,
}
use messq.Queue.Dead.{DeadCtx, DeadBudget}
use messq.Store.Rows.{DeliveryRow, HasRow}
use messq.Store.Settle.{Event, StoreError, dead_budget, delete_where, update_where}
use messq.Store.Streams.Tables.{StreamRow, StoredMessage, Tables}
use messq.Store.Sweep.{
  SweepState, SweepCmd, sweep_fence, released, sweep_dead_ctx, redeliver, bury, sink_answer,
  apply_decision, note_lateness, sweep_one, sweep_rows, timeout_event,
}
use messq.Store.Dead.{
  DeadEvent, DeadError, DlqSink, load_dead_policy, find_message, dead, Buried, create_event,
  ensure_dlq_stream, copy_of,
}
use messq.Store.Dead.Outcome.{dead-Outcome}
use messq.Store.Dead.Sink.{SinkState, settled, dlq_sink}

-- A message with this one's subject, body and trace is among them.
abbrev pub HasCopy : StoredMessage → List StoredMessage → Type 0
HasCopy m [] = ⊥
HasCopy m (x ∷ xs) =
    ((x.subject ≡ m.subject) × (x.body ≡ m.body) × (x.trace_id ≡ m.trace_id)) ⊎ HasCopy m xs

HasCopy-append :
    (m : StoredMessage) (xs ys : List StoredMessage) → HasCopy m xs → HasCopy m (xs ++ ys)
HasCopy-append m [] ys h = absurd h
HasCopy-append m (x ∷ xs) ys (inl h) = inl h
HasCopy-append m (x ∷ xs) ys (inr h) = inr (HasCopy-append m xs ys h)

HasCopy-last :
    (m x : StoredMessage) (xs : List StoredMessage)
    → (x.subject ≡ m.subject) × (x.body ≡ m.body) × (x.trace_id ≡ m.trace_id)
    → HasCopy m (xs ++ (x ∷ []))
HasCopy-last m x [] h = inl h
HasCopy-last m x (y ∷ xs) h = inr (HasCopy-last m x xs h)

HasRow-update_where :
    (p : DeliveryRow → Bool) (f : DeliveryRow → DeliveryRow) (n : ℕ) (rows : List DeliveryRow)
    → ((d : DeliveryRow) → (f d).seq ≡ d.seq)
    → HasRow n rows
    → HasRow n (update_where p f rows).0
unfolding update_where
HasRow-update_where p f n [] same h = h
HasRow-update_where p f n (d ∷ rows) same h =
    if_both (λ (out : List DeliveryRow × ℕ). HasRow n out.0) (p d)
      (f d ∷ (update_where p f rows).0, suc (update_where p f rows).1)
      (d ∷ (update_where p f rows).0, (update_where p f rows).1)
      (λ _. ground (arith, same d, HasRow-update_where p f n rows same))
      (λ _. ground (arith, HasRow-update_where p f n rows same))

HasRow-delete_where :
    (p : DeliveryRow → Bool) (k n : ℕ) (rows : List DeliveryRow)
    → ((d : DeliveryRow) → p d ≡ true → d.seq ≡ k)
    → HasRow n rows
    → HasRow n (delete_where p rows).0 ⊎ (n ≡ k)
unfolding delete_where
HasRow-delete_where p k n [] only h = absurd h
HasRow-delete_where p k n (d ∷ rows) only h =
    if_both (λ (out : List DeliveryRow × ℕ). HasRow n out.0 ⊎ (n ≡ k)) (p d)
      ((delete_where p rows).0, suc (delete_where p rows).1)
      (d ∷ (delete_where p rows).0, (delete_where p rows).1)
      (λ gone. ground (arith, only d gone, HasRow-delete_where p k n rows only))
      (λ _. ground (arith, HasRow-delete_where p k n rows only))

sweep_fence-seq : (r : SweepRow) (d : DeliveryRow) → sweep_fence r d ≡ true → d.seq ≡ r.seq
unfolding sweep_fence
sweep_fence-seq r d h = ground arith

create_event-messages :
    (row : Option StreamRow) (now_ms : ℤ) (t : Tables)
    → (create_event row now_ms t).messages ≡ t.messages
create_event-messages none now_ms t = refl
create_event-messages (some r) now_ms t = refl

kept_messages :
    (s : DlqSink) (name : Bytes) (now_ms : ℤ) (t : Tables)
    → (ensure_dlq_stream s.cfg name now_ms t).messages ≡ t.messages
unfolding ensure_dlq_stream
kept_messages s name now_ms t = create_event-messages t.row now_ms _

module _ (s : DlqSink) (new_id : ℕ → Bytes) (policy : Option DeadPolicy)
    (origin : List StoredMessage) where
  -- The policy does not copy, or the origin has no such message, or it has its copy.
  abbrev pub Accounted : ℕ → SinkState → Type 0
  Accounted n k =
      (load_dead_policy policy ≢ dlq)
      ⊎ (find_message n origin ≡ none)
      ⊎ ((m : StoredMessage) × (find_message n origin ≡ some m) × HasCopy m k.dlq.messages)

  -- Copies stay, and no row goes but one that is accounted for.
  pub record NoneLost (x x' : SweepState SinkState) : Type 0 where
    pub stay :
        (m : StoredMessage)
        → HasCopy m x.sink_state.dlq.messages
        → HasCopy m x'.sink_state.dlq.messages
    pub kept : (n : ℕ) → HasRow n x.rows → HasRow n x'.rows ⊎ Accounted n x'.sink_state

  Accounted-stays :
      (n : ℕ) (k k' : SinkState)
      → ((m : StoredMessage) → HasCopy m k.dlq.messages → HasCopy m k'.dlq.messages)
      → Accounted n k
      → Accounted n k'
  Accounted-stays n k k' stay (inl other) = inl other
  Accounted-stays n k k' stay (inr (inl none_there)) = inr (inl none_there)
  Accounted-stays n k k' stay (inr (inr (m, found, copied))) = inr (inr (m, found, stay m copied))

  NoneLost-trans : (x y z : SweepState SinkState) → NoneLost x y → NoneLost y z → NoneLost x z
  NoneLost-trans x y z a b = record {
    stay = λ m h. b.stay m (a.stay m h);
    kept = λ n h. elim (a.kept n h) [
      | inl still ↦ b.kept n still
      | inr gone ↦ inr (Accounted-stays n y.sink_state z.sink_state b.stay gone)
    ];
  }

  -- A death that the sink accepts is accounted for, and no copy is lost by it.
  dead-Accounted :
      (id : Bytes) (now_ms : ℤ) (t t' : Tables) (d : DeadCtx) (b b' : Option DeadBudget)
      (ev : DeadEvent) (minted : ℕ)
      → dead s id now_ms policy origin t d b ≡ ok (ev, t', b')
      → Accounted d.seq (record { dlq = t'; budget = b'; minted = minted })
        × ((m : StoredMessage) → HasCopy m t.messages → HasCopy m t'.messages)
  unfolding copy_of
  dead-Accounted id now_ms t t' d b b' ev minted h =
      elim (dead-Outcome s id now_ms policy origin t t' d b b' ev h) [
        | inl un ↦ (
          elim un.why [ inl (_, other) ↦ inl other | inr (_, missing) ↦ inr (inl missing) ],
          λ m copied. subst (λ (u : Tables). HasCopy m u.messages) (sym un.same) copied,
        )
        | inr c ↦
            let u = ensure_dlq_stream s.cfg c.name now_ms t in
            let grew = ap (λ (v : Tables). v.messages) c.after in
            let kept = kept_messages s c.name now_ms t in
            (
              inr (
                  inr (
                    c.message,
                    c.found,
                    subst (HasCopy c.message) (sym grew)
                        (HasCopy-last c.message _ u.messages (refl, refl, refl)),
                  )),
              λ m copied.
                  subst (HasCopy m) (sym grew)
                    (HasCopy-append m u.messages _ (subst (HasCopy m) (sym kept) copied)),
            )
      ]

  bury-NoneLost :
      (r : SweepRow) (dead_ev : Event) (x : SweepState SinkState)
      → Accounted r.seq x.sink_state
      → NoneLost x (bury r dead_ev x)
  unfolding bury
  bury-NoneLost r dead_ev x accounted =
      let kept : (n : ℕ)
          → HasRow n x.rows
          → HasRow n (delete_where (sweep_fence r) x.rows).0 ⊎ Accounted n x.sink_state =
        λ n h. elim (HasRow-delete_where (sweep_fence r) r.seq n x.rows (sweep_fence-seq r) h) [
          | inl still ↦ inl still
          | inr same ↦ inr (subst (λ k. Accounted k x.sink_state) (sym same) accounted)
        ] in
      if_both (NoneLost x) ((delete_where (sweep_fence r) x.rows).1 == 0) _ _
        (λ _. record { stay = λ m h. h; kept = kept })
        (λ _. record { stay = λ m h. h; kept = kept })

  redeliver-NoneLost :
      (r : SweepRow) (dec : SweepDecision) (now_ms : ℤ) (x : SweepState SinkState)
      → NoneLost x (redeliver r dec now_ms x)
  unfolding redeliver released
  redeliver-NoneLost r dec now_ms x =
      let kept = λ (n : ℕ) (h : HasRow n x.rows).
        inl (HasRow-update_where (sweep_fence r) (released dec) n x.rows (λ d. refl) h) in
      if_both (NoneLost x) ((update_where (sweep_fence r) (released dec) x.rows).1 == 0) _ _
        (λ _. record { stay = λ m h. h; kept = kept })
        (λ _. record { stay = λ m h. h; kept = kept })

  sink_answer-NoneLost :
      (r : SweepRow) (x x' : SweepState SinkState) (answer : Result StoreError Event)
      → sink_answer r x answer ≡ ok x'
      → ((ev : Event) → answer ≡ ok ev → Accounted r.seq x.sink_state)
      → NoneLost x x'
  unfolding sink_answer
  sink_answer-NoneLost r x x' (ok ev) h accounted =
      subst (NoneLost x) (ok-inj h) (bury-NoneLost r ev x (accounted ev refl))
  sink_answer-NoneLost r x x' (err dead_budget) h accounted =
      subst (NoneLost x) (ok-inj h) (record { stay = λ m h. h; kept = λ n h. inl h })
  sink_answer-NoneLost r x x' (err e) h accounted = cc

  settled-Accounted :
      (k : SinkState) (d : DeadCtx) (now_ms : ℤ) (call : Result DeadError Buried)
      → dead s (new_id k.minted) now_ms policy origin k.dlq d k.budget ≡ call
      → ((ev : Event) → (settled k call).0 ≡ ok ev → Accounted d.seq (settled k call).1)
        × ((m : StoredMessage)
            → HasCopy m k.dlq.messages
            → HasCopy m (settled k call).1.dlq.messages)
  settled-Accounted k d now_ms (ok (ev, t', b')) h =
      let (accounted, stay) =
        dead-Accounted (new_id k.minted) now_ms k.dlq t' d k.budget b' ev (suc k.minted) h in
      (λ _ _. accounted, stay)
  settled-Accounted k d now_ms (err e) h = (λ ev wrong. absurd (cc), λ m h. h)

  module _ (jitter : Option Jitter) (now : Time) where
    abbrev pub dlq_sweep : SweepCmd SinkState
    dlq_sweep = record { sink = dlq_sink s new_id policy origin; jitter = jitter }

    apply_decision-NoneLost :
        (r : SweepRow) (p : SweepPolicy) (dec : SweepDecision) (x x' : SweepState SinkState)
        (action : SweepAction)
        → apply_decision dlq_sweep now r p dec x action ≡ ok x'
        → NoneLost x x'
    unfolding apply_decision dlq_sink sweep_dead_ctx
    apply_decision-NoneLost r p dec x x' sweep_skip h =
        subst (NoneLost x) (ok-inj h) (record { stay = λ m h. h; kept = λ n h. inl h })
    apply_decision-NoneLost r p dec x x' sweep_redeliver h =
        subst (NoneLost x) (ok-inj h) (redeliver-NoneLost r dec (unix_milli now) x)
    apply_decision-NoneLost r p dec x x' sweep_dead h =
        let k = x.sink_state in
        let d = sweep_dead_ctx r p dec in
        let call = dead s (new_id k.minted) (unix_milli now) policy origin k.dlq d k.budget in
        let (accounted, stay) = settled-Accounted k d (unix_milli now) call refl in
        let y = record x {
          events = x.events ++ timeout_event r (unix_milli now) ∷ [];
          sink_state = (settled k call).1;
        } in
        NoneLost-trans x y x' (record { stay = stay; kept = λ n h. inl h })
          (sink_answer-NoneLost r y x' (settled k call).0 h accounted)

    sweep_one-NoneLost :
        (p : Option SweepPolicy) (r : SweepRow) (x x' : SweepState SinkState)
        → sweep_one dlq_sweep now p r x ≡ ok x'
        → NoneLost x x'
    unfolding sweep_one note_lateness
    sweep_one-NoneLost none r x x' h =
        subst (NoneLost x) (ok-inj h) (record { stay = λ m h. h; kept = λ n h. inl h })
    sweep_one-NoneLost (some p) r x x' h =
        let dec = decide_sweep r p (unix_milli now) jitter in
        let y = note_lateness dec x in
        NoneLost-trans x y x' (record { stay = λ m h. h; kept = λ n h. inl h })
          (apply_decision-NoneLost r p dec y x' dec.action h)

    -- A sweep that ends well loses no message: every row that it removes is of a consumer whose policy
    -- does not copy, or of a message that the origin no longer has, or has a copy of its message in the
    -- dead-letter stream; and no copy that was there goes.
    pub sweep_rows-NoneLost :
        (p : Option SweepPolicy) (rs : List SweepRow) (x x' : SweepState SinkState)
        → sweep_rows dlq_sweep now p rs x ≡ ok x'
        → NoneLost x x'
    unfolding sweep_rows
    sweep_rows-NoneLost p [] x x' h =
        subst (NoneLost x) (ok-inj h) (record { stay = λ m h. h; kept = λ n h. inl h })
    sweep_rows-NoneLost p (r ∷ rs) x x' h =
        let (y, first, h) = >>=-eq-ok (sweep_one dlq_sweep now p r x) _ h in
        NoneLost-trans x y x' (sweep_one-NoneLost p r x y first) (sweep_rows-NoneLost p rs y x' h)
