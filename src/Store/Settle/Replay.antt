-- ===== src/Store/Settle/Replay.antt =====
-- applyOne (internal/store/settle.go): an ack's row is gone after it, and a repeated ack is harmless.
use messq.Common.{ℕ, ◌≡◌, ◌≢◌, ◌<◌, refl, List, true, none, some, Result, err, arith}
use messq.Queue.Types.{Time}
use messq.Queue.Token.{Token}
use messq.Queue.Settle.{plain, plan_settle, ack, plan_ack, noop, ItemStatus, stale}
use messq.Store.Rows.{DeliveryRow, Sorted}
use messq.Store.Settle.{
  SettleConsumer, SettleItem, ItemResult, StoreError, SettleState, SettleCmd, row_of, fence,
  delete_where,
}
use messq.Store.Settle.Action.{apply_action, delete_fenced}
use messq.Store.Settle.Apply.{apply_one, planned, answer, granted, request, reject_dup}
use messq.Store.Settle.Fenced.{
  fence-Picks, delete_where-changed, delete_where-gone, delete_where-others, update_where-others,
}
use messq.Store.Settle.Writing.{
  Written, released_row, extended_row, extend_fence, apply_one-Written,
}
use messq.Store.Settle.Writes.{IsNamed, and-left}

others-Written :
    (t : Token) (m : ℕ) → m ≢ t.seq → Written t (λ rows after. row_of m after ≡ row_of m rows)
others-Written t m other = record {
  nothing = λ rows. refl;
  deleted = λ rows. delete_where-others (fence t) t.seq (fence-Picks t) rows m other;
  released = λ visible reason rows.
      update_where-others (fence t) t.seq (fence-Picks t) (released_row visible reason) (λ _. refl)
        rows m other;
  extended = λ visible rows.
      update_where-others (extend_fence t) t.seq (λ x e. fence-Picks t x (and-left _ _ e))
        (extended_row visible) (λ _. refl) rows m other;
}

-- A settle writes no row but the one that its token names: the row of any other number is as it was.
pub apply_one-others :
    (cmd : SettleCmd) (now : Time) (it : SettleItem) (cons : SettleConsumer)
    (loaded : List DeliveryRow) (s : SettleState) (m : ℕ) {out : ItemResult × SettleState}
    → m ≢ it.token.seq
    → apply_one cmd now it cons loaded s ≡ Result.ok out
    → row_of m out.1.rows ≡ row_of m s.rows
apply_one-others cmd now it cons loaded s m other h =
    apply_one-Written cmd now it (λ rows after. row_of m after ≡ row_of m rows)
      (others-Written it.token m other) cons loaded s h

-- The call ended with `P`.
abbrev pub Holds : {A : Type 0} → (A → Type 0) → Result StoreError A → Type 0
Holds P (Result.ok a) = P a
Holds P (err e) = ⊥

fence-attempt : (t : Token) (r : DeliveryRow) → fence t r ≡ true → t.attempt ≡ r.attempts
unfolding fence
fence-attempt t r h = ground arith

ack_granted :
    (cmd : SettleCmd) (now : Time) (it : SettleItem) (cons : SettleConsumer) (r : DeliveryRow)
    → it.verb ≡ ack
    → it.token.generation ≡ cons.generation
    → it.token.attempt ≡ r.attempts
    → plan_settle (request cmd it cons (some r)) now
      ≡ Result.ok (plan_ack (request cmd it cons (some r)) now)
unfolding plan_settle request
ack_granted cmd now it cons r v g a = ground arith

absent_stale :
    (cmd : SettleCmd) (now : Time) (it : SettleItem) (cons : SettleConsumer)
    → it.token.generation ≡ cons.generation
    → it.token.seq < cons.cursor_seq
    → plan_settle (request cmd it cons none) now ≡ Result.ok (plain stale noop)
unfolding plan_settle request
absent_stale cmd now it cons g below = ground arith

repeated_stale :
    (cmd : SettleCmd) (now : Time) (it : SettleItem) (cons : SettleConsumer) (s : SettleState)
    → cons.found ≡ true
    → it.token.generation ≡ cons.generation
    → it.token.seq < cons.cursor_seq
    → row_of it.token.seq s.rows ≡ none
    → Holds
        (λ out. (out.0.status ≡ stale) × (out.1.rows ≡ s.rows))
        (apply_one cmd now it cons s.rows s)
unfolding apply_one planned answer reject_dup
repeated_stale cmd now it cons s found g below gone =
    rw (found, gone, absent_stale cmd now it cons g below) (refl, refl)

-- What holds of every result that answers ok, with the row deleted, holds after an ack.
first_ack :
    (P : ItemResult × SettleState → Type 0) (cmd : SettleCmd) (now : Time) (it : SettleItem)
    (cons : SettleConsumer) (s : SettleState) (r : DeliveryRow)
    → Sorted 0 s.rows
    → IsNamed it.token s.rows r
    → cons.found ≡ true
    → it.verb ≡ ack
    → it.token.generation ≡ cons.generation
    → ((out : ItemResult × SettleState)
        → out.0.status ≡ ItemStatus.ok
        → out.1.rows ≡ (delete_where (fence it.token) s.rows).0
        → P out)
    → Holds P (apply_one cmd now it cons s.rows s)
unfolding apply_one planned answer granted apply_action delete_fenced plan_ack
first_ack P cmd now it cons s r up n found v g k =
    let one =
      delete_where-changed (fence it.token) it.token.seq (fence-Picks it.token) 0 s.rows r up
        n.found n.fenced in
    let plan = ack_granted cmd now it cons r v g (fence-attempt it.token r n.fenced) in
    rw (found, n.found, plan, one) (k _ refl refl)

-- A repeated ack is harmless: when the row of the token's number is in the table, in the order of its
-- numbers, behind the cursor, and has the token's attempt and generation, which is the consumer's,
-- then an ack answers ok and removes the row, and the same ack after it answers stale and changes no
-- row.
pub ack-once :
    (cmd : SettleCmd) (now later : Time) (it : SettleItem) (cons : SettleConsumer) (s : SettleState)
    (r : DeliveryRow)
    → Sorted 0 s.rows
    → IsNamed it.token s.rows r
    → cons.found ≡ true
    → it.verb ≡ ack
    → it.token.generation ≡ cons.generation
    → it.token.seq < cons.cursor_seq
    → Holds
        (λ out.
          (out.0.status ≡ ItemStatus.ok)
          × (row_of it.token.seq out.1.rows ≡ none)
          × Holds
              (λ again. (again.0.status ≡ stale) × (again.1.rows ≡ out.1.rows))
              (apply_one cmd later it cons out.1.rows out.1))
        (apply_one cmd now it cons s.rows s)
ack-once cmd now later it cons s r up n found v g below =
    let gone =
      delete_where-gone (fence it.token) it.token.seq (fence-Picks it.token) 0 s.rows r up n.found
        n.fenced in
    first_ack _ cmd now it cons s r up n found v g (λ out status rows.
      let absent : row_of it.token.seq out.1.rows ≡ none = rw rows gone in
      (status, absent, repeated_stale cmd later it cons out.1 found g below absent))
