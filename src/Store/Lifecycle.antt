-- ===== src/Store/Lifecycle.antt =====
-- One consumer over its life (internal/store): publishes to its stream, fetches, settles, sweeps, the
-- lowering of its bound, seeks and the stream's retention, one after the other as the writer runs them.
pub mod Evolve
pub mod Admission
pub mod Claims
pub mod Shrinks
pub mod Settles
pub mod Messages
pub mod Published
pub mod Moves
pub mod Steps
use messq.Common.{ℕ, suc, ◌≤◌, ◌<◌, ◌≡◌, ◌⊎◌, List, [], ◌∷◌, ◌++◌, true, All, Bytes, ℤ, pos}
use messq.Queue.Settle.{is_ready}
use messq.Store.Rows.{Message, DeliveryRow, Sorted}
use messq.Store.Fetch.{ConsumerState}
use messq.Store.Fetch.Cursor.{Ascending}

-- The stream's messages and counter, the consumer's row, and its deliveries.
pub record World : Type 0 where
  pub messages : List Message
  pub next : ℕ
  pub state : ConsumerState
  pub rows : List DeliveryRow

abbrev pub HasMessage : ℕ → Bytes → List Message → Type 0
HasMessage n subject [] = ⊥
HasMessage n subject (m ∷ ms) = ((m.seq ≡ n) × (m.subject ≡ subject)) ⊎ HasMessage n subject ms

abbrev pub AllUnder : ℕ → List Message → Type 0
AllUnder n = All (λ (m : Message). m.seq < n)

-- A row that was never delivered stands as it was admitted.
abbrev pub Untouched : DeliveryRow → Type 0
Untouched r = r.attempts ≡ 0 → (is_ready r.state ≡ true) × (r.visible_at ≡ pos 0)

-- What CheckConsumerInvariants (invariants_consumer.go) asks of one row: the cursor is past it,
-- its message is there under its subject, and it has the consumer's generation.
abbrev pub RowOk : List Message → ConsumerState → DeliveryRow → Type 0
RowOk messages st r =
    (r.seq < st.cursor_seq)
    × HasMessage r.seq r.subject messages
    × (r.generation ≡ st.generation)
    × Untouched r

-- Rows that were never delivered are the last ones.
abbrev pub FreshLast : List DeliveryRow → Type 0
FreshLast [] = Unit
FreshLast (r ∷ rs) = (r.attempts ≡ 0 → All (λ (x : DeliveryRow). x.attempts ≡ 0) rs) × FreshLast rs

pub record RowsOk (messages : List Message) (st : ConsumerState) (rows : List DeliveryRow)
    : Type 0 where
  pub sorted : Sorted 0 rows
  pub each : All (RowOk messages st) rows
  pub fresh_last : FreshLast rows

-- And of the consumer: the cursor lies between 1 and the head of the stream.
pub record IsSound (w : World) : Type 0 where
  pub ascending : Ascending 0 w.messages
  pub under : AllUnder w.next w.messages
  pub from_one : 1 ≤ w.state.cursor_seq
  pub to_head : w.state.cursor_seq ≤ w.next
  pub rows_ok : RowsOk w.messages w.state w.rows
