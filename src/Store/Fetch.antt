-- ===== src/Store/Fetch.antt =====
-- internal/store/fetch.go: topUp, which admits messages to a consumer and moves its cursor, and the
-- reason that a short fetch gives.
pub mod Cursor
use messq.Common.{
  ℕ, suc, ◌+◌, ◌-◌, List, [], ◌∷◌, length, take, Bool, true, false, ◌&&◌, Option, none, some, Bytes,
  ℤ, pos, ltb_ℤ, leb_ℤ, ltb, ◌==◌, if◌then◌else◌,
}
use messq.Subject.Grammar.{Pattern}
use messq.Subject.Match.{match_any}
use messq.Queue.Settle.{ready}
use messq.Store.Rows.{Message, DeliveryRow, insert_row}

-- What of a consumer's row the scan reads, its filters parsed.
pub record ConsumerState : Type 0 where
  pub filters : List Pattern
  pub max_ack_pending : ℤ
  pub cursor_seq : ℕ
  pub generation : ℕ

-- The variables of the scan.
pub record Scan : Type 0 where
  pub rows : List DeliveryRow
  pub pending : ℕ
  pub conflicts : ℕ
  pub scanned : ℕ
  pub last_examined : ℕ
  pub declined : Option ℕ

abbrev pub new_row : Message → ℕ → DeliveryRow
new_row m generation = record {
  seq = m.seq;
  subject = m.subject;
  state = ready;
  attempts = 0;
  visible_at = pos 0;
  generation = generation;
  delivered_at = pos 0;
  last_reason = [];
}

unfoldable pub admit : ℕ → Message → Scan → Scan
unfolding insert_row
admit generation m s =
    let (rows, inserted) = insert_row (new_row m generation) s.rows in
    if inserted
    then record s { rows = rows; pending = suc s.pending }
    else record s { rows = rows; conflicts = suc s.conflicts }

unfoldable pub scan : ConsumerState → List Message → Scan → Scan
unfolding admit match_any
scan st [] s = s
scan st (m ∷ ms) s =
    let seen = record s { scanned = suc s.scanned; last_examined = m.seq } in
    let matches = match_any st.filters m.subject in
    let rest = scan st ms (if matches then admit st.generation m seen else seen) in
    if matches && leb_ℤ st.max_ack_pending (pos s.pending)
    then record seen { declined = some m.seq }
    else rest

-- SELECT … WHERE seq >= cursor
abbrev pub at_or_after : ℕ → List Message → List Message
at_or_after cursor [] = []
at_or_after cursor (m ∷ ms) =
    let rest = at_or_after cursor ms in if ltb m.seq cursor then rest else m ∷ rest

abbrev pub scan_start : ℕ → List DeliveryRow → Scan
scan_start pending rows = record {
  rows = rows;
  pending = pending;
  conflicts = 0;
  scanned = 0;
  last_examined = 0;
  declined = none;
}

-- The cursor before it is kept from moving back.
unfoldable pub cursor_after : ℕ → ℕ → Scan → ℕ
cursor_after limit stream_next s = elim s.declined [
  | some n ↦ n
  | none ↦ if s.scanned == limit then s.last_examined + 1 else stream_next
]

unfoldable pub next_cursor : ℕ → ℕ → ℕ → Scan → ℕ
unfolding cursor_after
next_cursor cursor limit stream_next s =
    let candidate = cursor_after limit stream_next s in
    if ltb candidate cursor then cursor else candidate

-- The new cursor, and the scan with the table it leaves.
unfoldable pub top_up : ConsumerState → ℕ → ℕ → ℕ → List Message → List DeliveryRow → ℕ × Scan
unfolding scan next_cursor
top_up st pending stream_next limit messages rows =
    let done =
      scan st (take limit (at_or_after st.cursor_seq messages)) (scan_start pending rows) in
    (next_cursor st.cursor_seq limit stream_next done, done)

pub data HoldReason : Type 0 where
  hold_none hold_paused hold_flow_control hold_catching_up hold_empty : HoldReason

unfoldable pub fetch_hold : Bool → Bool → ℕ → ℕ → ℕ → ℤ → HoldReason
fetch_hold paused full pending cursor_seq next bound =
    if full
    then hold_none
    else if paused
    then hold_paused
    else if ltb_ℤ (pos 0) bound && leb_ℤ bound (pos pending)
    then hold_flow_control
    else if pending == 0
    then (if ltb cursor_seq next then hold_catching_up else hold_empty)
    else hold_none
