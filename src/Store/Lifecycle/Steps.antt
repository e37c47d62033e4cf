-- ===== src/Store/Lifecycle/Steps.antt =====
-- The commands of one consumer's life (internal/store: publish, fetch, settle, sweep, update, seek and
-- retention), and what CheckConsumerInvariants finds after any run of them.
mod Examples
use messq.Common.{
  ℕ, suc, ◌+◌, ◌≤◌, ◌<◌, ◌≡◌, ◌≤ℤ◌, refl, sym, ap, ◌∙◌, inl, inr, Bytes, subst, List, [], ◌∷◌, ◌++◌,
  length, Bool, true, false, Option, none, some, ℤ, pos, All, arith, Result, ok,
}
use messq.Queue.Types.{Error, Time}
use messq.Queue.Dlq.{Headers}
use messq.Queue.Publish.{PublishReq}
use messq.Store.Streams.Tables.{Tables}
use messq.Store.Streams.Publish.{PublishOpts, Ack, publish_tx}
use messq.Store.Consumers.{ConsumerRow, ConsumerTables}
use messq.Store.Consumers.Seek.{SeekResult, seek_consumer}
use messq.Store.Consumers.Seek.Moved.{IsMoved, seek_consumer-IsMoved}
use messq.Store.Lifecycle.Published.{seen, head_of, Publishes, publish_tx-Publishes}
use messq.Queue.Sweep.{SweepRow, SweepPolicy}
use messq.Store.Rows.{Message, DeliveryRow}
use messq.Store.Fetch.{ConsumerState, top_up}
use messq.Store.Claim.{claim_ready}
use messq.Store.Settle.{SettleConsumer, SettleItem, ItemResult, SettleState, SettleCmd}
use messq.Store.Settle.Apply.{apply_one}
use messq.Store.Sweep.{SweepState, SweepCmd, sweep_rows}
use messq.Store.Consumers.Shrink.{shrink_to}
use messq.Store.Consumers.Start.{StartPosition, resolve_start_position}
use messq.Store.Consumers.Start.Range.{resolve_start_position-InRange}
use messq.Store.Lifecycle.{World, RowsOk, IsSound}
use messq.Store.Lifecycle.Admission.{top_up-RowsOk}
use messq.Store.Lifecycle.Claims.{claim_ready-RowsOk}
use messq.Store.Lifecycle.Moves.{state_of, published-IsSound, sought-IsSound}
use messq.Store.Lifecycle.Shrinks.{shrink_to-RowsOk}
use messq.Store.Lifecycle.Settles.{apply_one-RowsOk, sweep_rows-RowsOk}
use messq.Store.Lifecycle.Messages.{
  AllUnder-publish, Ascending-publish, RowsOk-publish, evict, RowsOk-evict, AllUnder-evict,
  Ascending-evict, stamps_of, stamps_of-InStream,
}

-- The two halves of a fetch stand apart, so that any order of the two is a run.
pub data Step (K : Type 0) (w : World) : World → Type 1 where
  publishes :
      (encode : Headers → Result Error Bytes) (new_id minted : Bytes) (now : ℤ) (name : Bytes)
      (r : PublishReq) (o : PublishOpts) (t t' : Tables) (ack : Ack)
      → seen t.messages ≡ w.messages
      → t.next ≡ some w.next
      → publish_tx encode new_id minted now name r o t ≡ ok (t', ack)
      → Step K w (record w { messages = seen t'.messages; next = head_of t'.next w.next })
  tops_up :
      (pending limit : ℕ)
      → Step K w (record w {
        state = record w.state {
          cursor_seq = (top_up w.state pending w.next limit w.messages w.rows).0;
        };
        rows = (top_up w.state pending w.next limit w.messages w.rows).1.rows;
      })
  claims :
      (now ack_wait : ℤ) (batch : ℕ) (max_bytes : ℤ)
      → pos 0 ≤ℤ now
      → Step K w
          (record w { rows = (claim_ready now ack_wait batch max_bytes w.messages w.rows).1 })
  settles :
      (cmd : SettleCmd) (now : Time) (it : SettleItem) (cons : SettleConsumer)
      (loaded : List DeliveryRow) (s : SettleState) (out : ItemResult × SettleState)
      → 0 < it.token.attempt
      → s.rows ≡ w.rows
      → apply_one cmd now it cons loaded s ≡ Result.ok out
      → Step K w (record w { rows = out.1.rows })
  sweeps :
      (cmd : SweepCmd K) (now : Time) (p : Option SweepPolicy) (loaded : List SweepRow)
      (s s' : SweepState K)
      → s.rows ≡ w.rows
      → sweep_rows cmd now p loaded s ≡ ok s'
      → Step K w (record w { rows = s'.rows })
  shrinks :
      (bound : ℕ)
      → Step K w (record w {
        state = record w.state {
          cursor_seq = (shrink_to bound w.state.cursor_seq w.rows).0;
          max_ack_pending = pos bound;
        };
        rows = (shrink_to bound w.state.cursor_seq w.rows).1;
      })
  seeks :
      (to : StartPosition) (now : Time) (published_at : ℕ → ℤ) (t t' : ConsumerTables)
      (res : SeekResult)
      → t.anchors ≡ record { stamps = stamps_of published_at w.messages; next = some w.next }
      → t.deliveries ≡ w.rows
      → state_of t.row w.state ≡ w.state
      → seek_consumer to false now t ≡ ok (t', res)
      → Step K w (record w { state = state_of t'.row w.state; rows = t'.deliveries })
  evicts : (picked : ℕ → Bool) → Step K w (record w { messages = evict picked w.rows w.messages })

pub Step-IsSound : (K : Type 0) (w : World) {w' : World} → Step K w w' → IsSound w → IsSound w'
Step-IsSound K w (publishes encode new_id minted now name r o t t' ack same at e) h =
    published-IsSound w (seen t'.messages) (head_of t'.next w.next)
      (subst (λ l. Publishes l w.next (seen t'.messages) (head_of t'.next w.next)) same
        (publish_tx-Publishes encode new_id minted now name r o t t' ack w.next at e))
      h
Step-IsSound K w (tops_up pending limit) h =
    let (rows_ok, one, head) =
      top_up-RowsOk w.state pending w.next limit w.messages w.rows h.ascending h.under h.from_one
        h.to_head h.rows_ok in
    record {
      ascending = h.ascending;
      under = h.under;
      from_one = one;
      to_head = head;
      rows_ok = rows_ok;
    }
Step-IsSound K w (claims now ack_wait batch max_bytes le) h = record {
  ascending = h.ascending;
  under = h.under;
  from_one = h.from_one;
  to_head = h.to_head;
  rows_ok = claim_ready-RowsOk w.messages w.state now ack_wait le batch max_bytes w.rows h.rows_ok;
}
Step-IsSound K w (settles cmd now it cons loaded s out lt same e) h = record {
  ascending = h.ascending;
  under = h.under;
  from_one = h.from_one;
  to_head = h.to_head;
  rows_ok =
      apply_one-RowsOk w.messages w.state cmd now it cons loaded s lt e
        (subst (RowsOk w.messages w.state) (sym same) h.rows_ok);
}
Step-IsSound K w (sweeps cmd now p loaded s s' same e) h = record {
  ascending = h.ascending;
  under = h.under;
  from_one = h.from_one;
  to_head = h.to_head;
  rows_ok =
      sweep_rows-RowsOk w.messages w.state cmd now p loaded s s' e
        (subst (RowsOk w.messages w.state) (sym same) h.rows_ok);
}
Step-IsSound K w (shrinks bound) h =
    let (ok_rows, one, back) =
      shrink_to-RowsOk w.messages w.next w.state bound w.rows h.from_one h.rows_ok in
    record {
      ascending = h.ascending;
      under = h.under;
      from_one = one;
      to_head = omega (arith, h.to_head);
      rows_ok = record {
        sorted = ok_rows.sorted;
        each = ok_rows.each;
        fresh_last = ok_rows.fresh_last;
      };
    }
Step-IsSound K w (seeks to now published_at t t' res anchors rows state e) h =
    sought-IsSound w to now published_at t t' anchors (seek_consumer-IsMoved to now t t' res e) h
Step-IsSound K w (evicts picked) h = record {
  ascending = Ascending-evict picked w.rows 0 w.messages h.ascending;
  under = AllUnder-evict picked w.rows w.next w.messages h.under;
  from_one = h.from_one;
  to_head = h.to_head;
  rows_ok = RowsOk-evict picked w.messages w.state w.rows h.rows_ok;
}

pub data Reach (K : Type 0) (w : World) : World → Type 1 where
  here : Reach K w w
  then : {u v : World} → Reach K w u → Step K u v → Reach K w v

-- A stream of no messages and a consumer that starts at its head.
abbrev pub fresh_world : ConsumerState → World
fresh_world st = record { messages = []; next = 1; state = record st { cursor_seq = 1 }; rows = [] }

-- From a stream without messages and a consumer at its head, whatever publishes, fetches, settles,
-- sweeps, lowered bounds, seeks and evictions follow each other, the rows stay in order, each is behind
-- the cursor, of a message that is there under its subject and of the consumer's generation, and the
-- cursor is between 1 and the head of the stream. The claims are at times from 0 on, and the tokens
-- name attempts from 1 on, as every token that is read does.
pub Reach-IsSound :
    (K : Type 0) (st : ConsumerState) {w : World} → Reach K (fresh_world st) w → IsSound w
Reach-IsSound K st here = record {
  ascending = tt;
  under = tt;
  from_one = omega arith;
  to_head = omega arith;
  rows_ok = record { sorted = tt; each = tt; fresh_last = tt };
}
Reach-IsSound K st (then {u} run step) = Step-IsSound K u step (Reach-IsSound K st run)
