-- ===== src/Store/Lifecycle/Admission.antt =====
-- topUp (internal/store/fetch.go): the rows that it admits come after those that are there.
pub mod Scanning
use messq.Common.{
  ℕ, zero, suc, ◌+◌, ◌≤◌, ◌<◌, ◌≡◌, refl, sym, ap, ◌∙◌, subst, ◌⊎◌, inl, inr, List, [], ◌∷◌, ◌++◌,
  length, take, Bool, true, false, ◌&&◌, Option, none, some, ℤ, pos, leb_ℤ, ltb, ◌==◌, arith, All,
  All-append, Bool-cases, Option-cases, if_both, if◌then◌else◌, Bytes,
}
use messq.Subject.Match.{match_any}
use messq.Queue.Settle.{is_ready, ready}
use messq.Store.Rows.{Message, DeliveryRow, insert_row, Sorted}
use messq.Store.Fetch.{
  ConsumerState, Scan, admit, scan, at_or_after, scan_start, cursor_after, next_cursor, top_up,
  new_row,
}
use messq.Store.Fetch.Cursor.{Ascending, at_or_after-Ascending, admit-rest, cursor_after-declined}
use messq.Store.Lifecycle.{HasMessage, AllUnder, Untouched, RowOk, FreshLast, RowsOk}
use messq.Store.Lifecycle.Evolve.{AllFresh, Sorted-weaken}
use messq.Store.Lifecycle.Admission.Scanning.{
  Before, some-inj, insert_row-last, Backed, Examined, InScan, Examined-Before, Window, Declined,
  scan-InScan,
}

module _ (messages : List Message) (next : ℕ) (st : ConsumerState) where
  HasMessage-under :
      (n : ℕ) (s : Bytes) (ms : List Message) → AllUnder next ms → HasMessage n s ms → n < next
  HasMessage-under n s [] h there = absurd there
  HasMessage-under n s (m ∷ ms) (lt, h) (inl (same, _)) = omega arith
  HasMessage-under n s (m ∷ ms) (lt, h) (inr there) = HasMessage-under n s ms h there

  Backed-Before :
      (rows : List DeliveryRow)
      → AllUnder next messages
      → All (Backed messages st.generation) rows
      → Before next rows
  Backed-Before [] under h = tt
  Backed-Before (r ∷ rows) under (here, h) =
      (HasMessage-under r.seq r.subject messages under here.0, Backed-Before rows under h)

  -- From the parts back to the whole, at a cursor that all rows are before.
  pub Backed-RowOk :
      (c : ℕ) (rows : List DeliveryRow)
      → All (Backed messages st.generation) rows
      → Before c rows
      → All (RowOk messages (record st { cursor_seq = c })) rows
  Backed-RowOk c [] h before = tt
  Backed-RowOk c (r ∷ rows) ((there, current, untouched), h) (behind, before) =
      ((behind, there, current, untouched), Backed-RowOk c rows h before)

  pub RowOk-Backed :
      (rows : List DeliveryRow)
      → All (RowOk messages st) rows
      → All (Backed messages st.generation) rows × Examined st.cursor_seq 0 rows
  RowOk-Backed [] h = (tt, tt)
  RowOk-Backed (r ∷ rows) ((behind, there, current, untouched), h) =
      let (backed, examined) = RowOk-Backed rows h in
      (((there, current, untouched), backed), (inl behind, examined))

  at_or_after-Window :
      (ms : List Message)
      → All (λ (m : Message). HasMessage m.seq m.subject messages × (m.seq < next)) ms
      → Window messages next st.cursor_seq (at_or_after st.cursor_seq ms)
  at_or_after-Window [] h = tt
  at_or_after-Window (m ∷ ms) ((there, under), h) =
      if_both (Window messages next st.cursor_seq) (ltb m.seq st.cursor_seq)
        (at_or_after st.cursor_seq ms) (m ∷ at_or_after st.cursor_seq ms)
        (λ _. at_or_after-Window ms h)
        (λ late. ((ground arith, there, under), at_or_after-Window ms h))

  take-Window :
      (k : ℕ) (ms : List Message)
      → Window messages next st.cursor_seq ms
      → Window messages next st.cursor_seq (take k ms)
  take-Window zero ms h = tt
  take-Window (suc k) [] h = tt
  take-Window (suc k) (m ∷ ms) (here, h) = (here, take-Window k ms h)

take-Ascending : (k lo : ℕ) (ms : List Message) → Ascending lo ms → Ascending lo (take k ms)
take-Ascending zero lo ms h = tt
take-Ascending (suc k) lo [] h = tt
take-Ascending (suc k) lo (m ∷ ms) (lt, h) = (lt, take-Ascending k m.seq ms h)

Own-more :
    (next : ℕ) (m : Message) (all ms : List Message)
    → All (λ (x : Message). HasMessage x.seq x.subject all × (x.seq < next)) ms
    → All (λ (x : Message). HasMessage x.seq x.subject (m ∷ all) × (x.seq < next)) ms
Own-more next m all [] h = tt
Own-more next m all (x ∷ ms) ((there, under), h) = ((inr there, under), Own-more next m all ms h)

own_messages :
    (next : ℕ) (ms : List Message)
    → AllUnder next ms
    → All (λ (m : Message). HasMessage m.seq m.subject ms × (m.seq < next)) ms
own_messages next [] h = tt
own_messages next (m ∷ ms) (under, h) =
    ((inl (refl, refl), under), Own-more next m ms ms (own_messages next ms h))

cursor_after-range :
    (limit next : ℕ) (s : Scan)
    → s.declined ≡ none
    → s.last_examined < next
    → (s.last_examined < cursor_after limit next s) × (cursor_after limit next s ≤ next)
unfolding cursor_after
cursor_after-range limit next s h lt = rw h (ground arith)

-- The cursor that a scan gives is past all rows, and not past the head.
module _ (messages : List Message) (next limit : ℕ) (st : ConsumerState) (s : Scan)
    (under : AllUnder next messages) (to_head : st.cursor_seq ≤ next)
    (h : InScan messages next st s) (stopped : Declined messages next st s) where
  abbrev Fits : ℕ → Type 0
  Fits c = Before c s.rows × (st.cursor_seq ≤ c) × (c ≤ next)

  next_cursor-Fits : Fits (next_cursor st.cursor_seq limit next s)
  unfolding next_cursor
  next_cursor-Fits = elim (Option-cases s.declined) [
    | inl none_declined ↦
        let (past, up) = cursor_after-range limit next s none_declined h.last in
        if_both Fits (ltb (cursor_after limit next s) st.cursor_seq) st.cursor_seq
          (cursor_after limit next s)
          (λ back. (
            Examined-Before st.cursor_seq s.last_examined st.cursor_seq s.rows (omega arith)
                (ground arith) h.examined,
            omega arith,
            to_head,
          ))
          (λ on. (
            Examined-Before st.cursor_seq s.last_examined (cursor_after limit next s) s.rows
                (ground arith) past h.examined,
            ground arith,
            up,
          ))
    | inr (n, at) ↦
        let same = cursor_after-declined limit next n s at in
        let (before, on, (subject, there)) = stopped n at in
        let lt = HasMessage-under messages next st n subject messages under there in
        if_both Fits (ltb (cursor_after limit next s) st.cursor_seq) st.cursor_seq
          (cursor_after limit next s) (λ back. absurd (ground arith))
          (λ _. (subst (λ k. Before k s.rows) (sym same) before, omega arith, omega arith))
  ]

pub top_up-RowsOk :
    (st : ConsumerState) (pending next limit : ℕ) (messages : List Message)
    (rows : List DeliveryRow)
    → Ascending 0 messages
    → AllUnder next messages
    → 1 ≤ st.cursor_seq
    → st.cursor_seq ≤ next
    → RowsOk messages st rows
    → let (c, done) = top_up st pending next limit messages rows in
      RowsOk messages (record st { cursor_seq = c }) done.rows × (1 ≤ c) × (c ≤ next)
unfolding top_up
top_up-RowsOk st pending next limit messages rows up under one to_head ok_rows =
    let (backed, examined) = RowOk-Backed messages next st rows ok_rows.each in
    let seen = at_or_after st.cursor_seq messages in
    let (h, stopped) =
      scan-InScan messages next st (take limit seen) (scan_start pending rows)
        (take-Ascending limit 0 seen (at_or_after-Ascending st.cursor_seq 0 messages up))
        (take-Window messages next st limit seen
          (at_or_after-Window messages next st messages (own_messages next messages under)))
        refl
        (record {
          sorted = ok_rows.sorted;
          backed = backed;
          fresh_last = ok_rows.fresh_last;
          examined = examined;
          last = omega arith;
        }) in
    let done = scan st (take limit seen) (scan_start pending rows) in
    let (before, on, head) = next_cursor-Fits messages next limit st done under to_head h stopped in
    (
      record {
        sorted = h.sorted;
        each =
            Backed-RowOk messages next st (next_cursor st.cursor_seq limit next done) done.rows
              h.backed before;
        fresh_last = h.fresh_last;
      },
      omega arith,
      head,
    )
