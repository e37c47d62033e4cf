-- ===== src/Store/Lifecycle/Moves.antt =====
-- A publish and a seek (internal/store/publish.go, seek.go) as one consumer's rows see them.
use messq.Common.{
  ℕ, suc, ◌≡◌, sym, ap, ◌∙◌, inl, inr, subst, List, [], ◌∷◌, ◌++◌, false, Option, none, some, ℤ,
  arith,
}
use messq.Queue.Types.{Time}
use messq.Store.Consumers.{ConsumerRow, ConsumerTables}
use messq.Store.Consumers.Seek.Moved.{IsMoved}
use messq.Store.Lifecycle.Published.{Publishes}
use messq.Store.Rows.{Message}
use messq.Store.Fetch.{ConsumerState}
use messq.Store.Consumers.Start.{StartPosition, resolve_start_position}
use messq.Store.Consumers.Start.Range.{resolve_start_position-InRange}
use messq.Store.Lifecycle.{World, IsSound}
use messq.Store.Lifecycle.Messages.{
  AllUnder-publish, Ascending-publish, RowsOk-publish, stamps_of, stamps_of-InStream,
}

-- What a consumer's row says of its cursor and generation.
abbrev pub state_of : Option ConsumerRow → ConsumerState → ConsumerState
state_of none st = st
state_of (some r) st = record st { cursor_seq = r.cursor_seq; generation = r.generation }

pub published-IsSound :
    (w : World) (ms : List Message) (n : ℕ)
    → Publishes w.messages w.next ms n
    → IsSound w
    → IsSound (record w { messages = ms; next = n })
published-IsSound w ms n (inr (same, head)) h =
    subst (λ k. IsSound (record w { messages = ms; next = k })) (sym head)
      (subst (λ l. IsSound (record w { messages = l })) (sym same) h)
published-IsSound w ms n (inl (m, number, more, head)) h =
    let after : IsSound (record w { messages = w.messages ++ (m ∷ []); next = suc w.next }) =
      record {
        ascending =
            Ascending-publish 0 w.next w.messages m number (omega (arith, h.from_one, h.to_head))
              h.under h.ascending;
        under = AllUnder-publish w.next w.messages m number h.under;
        from_one = h.from_one;
        to_head = omega (arith, h.to_head);
        rows_ok = RowsOk-publish w.messages m w.state w.rows h.rows_ok;
      } in
    subst (λ k. IsSound (record w { messages = ms; next = k })) (sym head)
      (subst (λ l. IsSound (record w { messages = l; next = suc w.next })) (sym more) after)

pub sought-IsSound :
    (w : World) (to : StartPosition) (now : Time) (published_at : ℕ → ℤ) (t t' : ConsumerTables)
    → t.anchors ≡ record { stamps = stamps_of published_at w.messages; next = some w.next }
    → IsMoved to now t t'
    → IsSound w
    → IsSound (record w { state = state_of t'.row w.state; rows = t'.deliveries })
sought-IsSound w to now published_at t t' anchors moved h =
    let (one, head) =
      resolve_start_position-InRange to now (stamps_of published_at w.messages) w.next
        (omega (arith, h.from_one, h.to_head))
        (stamps_of-InStream published_at 0 w.next w.messages h.ascending h.under) moved.target false
        (ap (resolve_start_position to now) (sym anchors) ∙ moved.resolves) in
    let at = record w.state { cursor_seq = moved.target; generation = suc moved.from.generation } in
    let after : IsSound (record w { state = at; rows = [] }) = record {
      ascending = h.ascending;
      under = h.under;
      from_one = one;
      to_head = head;
      rows_ok = record { sorted = tt; each = tt; fresh_last = tt };
    } in
    subst (λ st. IsSound (record w { state = st; rows = t'.deliveries }))
      (sym (ap (λ r. state_of r w.state) moved.row))
      (subst (λ rs. IsSound (record w { state = at; rows = rs })) (sym moved.none_left) after)
