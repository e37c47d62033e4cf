-- ===== src/Store/Fetch/Cursor.antt =====
-- topUp (internal/store/fetch.go): the bound on pending rows, and that the cursor passes no message
-- that matches and has no row.
use messq.Common.{
  ℕ, zero, suc, ◌+◌, ◌≤◌, ◌<◌, ◌≡◌, refl, List, [], ◌∷◌, ◌++◌, length, take, true, false, ◌&&◌,
  none, some, ℤ, pos, ◌≤ℤ◌, leb_ℤ, ltb, arith, All, Bool-cases, inl, inr, if_both, if◌then◌else◌,
  drop, take-append-drop, subst, sym, ◌⊎◌,
}
use messq.Subject.Match.{match_any}
use messq.Store.Rows.{Message, DeliveryRow, insert_row, HasRow}
use messq.Store.Fetch.{
  ConsumerState, Scan, admit, scan, at_or_after, scan_start, cursor_after, next_cursor, top_up,
  new_row,
}

length-insert_row :
    (r : DeliveryRow) (xs : List DeliveryRow)
    → length (insert_row r xs).0 ≡ (if (insert_row r xs).1 then suc (length xs) else length xs)
unfolding insert_row
length-insert_row r [] = refl
length-insert_row r (x ∷ xs) = ground (arith, length-insert_row r xs)

insert_row-HasRow : (r : DeliveryRow) (xs : List DeliveryRow) → HasRow r.seq (insert_row r xs).0
unfolding insert_row
insert_row-HasRow r [] = inl refl
insert_row-HasRow r (x ∷ xs) = ground (arith, insert_row-HasRow r xs)

insert_row-keeps :
    (r : DeliveryRow) (xs : List DeliveryRow) (n : ℕ) → HasRow n xs → HasRow n (insert_row r xs).0
unfolding insert_row
insert_row-keeps r [] n h = elim h [ ]
insert_row-keeps r (x ∷ xs) n h = ground (arith, insert_row-keeps r xs n)

-- The count of pending rows is the table's, and within the bound.
pub record IsBounded (bound : ℤ) (s : Scan) : Type 0 where
  pub counted : s.pending ≡ length s.rows
  pub within : pos s.pending ≤ℤ bound

admit-IsBounded :
    (bound : ℤ) (g : ℕ) (m : Message) (s : Scan)
    → leb_ℤ bound (pos s.pending) ≡ false
    → IsBounded bound s
    → IsBounded bound (admit g m s)
unfolding admit
admit-IsBounded bound g m s free h = ground (arith, length-insert_row (new_row m g) s.rows)

scan-IsBounded :
    (st : ConsumerState) (ms : List Message) (s : Scan)
    → IsBounded st.max_ack_pending s
    → IsBounded st.max_ack_pending (scan st ms s)
unfolding scan
scan-IsBounded st [] s h = h
scan-IsBounded st (m ∷ ms) s h =
    let seen = record s { scanned = suc s.scanned; last_examined = m.seq } in
    let h' : IsBounded st.max_ack_pending seen = record {
      counted = h.counted;
      within = h.within;
    } in
    elim (Bool-cases (match_any st.filters m.subject)) [
      | inl matched ↦ elim (Bool-cases (leb_ℤ st.max_ack_pending (pos s.pending))) [
        | inl full ↦ rw (matched, full) (record { counted = h.counted; within = h.within })
        | inr free ↦
            rw (matched, free)
              (scan-IsBounded st ms (admit st.generation m seen)
                (admit-IsBounded st.max_ack_pending st.generation m seen free h'))
      ]
      | inr skipped ↦ rw skipped (scan-IsBounded st ms seen h')
    ]

admit-keeps :
    (g : ℕ) (m : Message) (s : Scan) (n : ℕ) → HasRow n s.rows → HasRow n (admit g m s).rows
unfolding admit
admit-keeps g m s n h = ground (arith, insert_row-keeps (new_row m g) s.rows n h)

admit-HasRow : (g : ℕ) (m : Message) (s : Scan) → HasRow m.seq (admit g m s).rows
unfolding admit
admit-HasRow g m s = ground (arith, insert_row-HasRow (new_row m g) s.rows)

scan-keeps :
    (st : ConsumerState) (ms : List Message) (s : Scan) (n : ℕ)
    → HasRow n s.rows
    → HasRow n (scan st ms s).rows
unfolding scan
scan-keeps st [] s n h = h
scan-keeps st (m ∷ ms) s n h =
    let seen = record s { scanned = suc s.scanned; last_examined = m.seq } in
    if_both (λ r. HasRow n r.rows)
      (match_any st.filters m.subject && leb_ℤ st.max_ack_pending (pos s.pending))
      (record seen { declined = some m.seq }) _ (λ _. h)
      (λ _. scan-keeps st ms _ n (
        if_both (λ r. HasRow n r.rows) (match_any st.filters m.subject) (admit st.generation m seen)
          seen (λ _. admit-keeps st.generation m seen n h) (λ _. h)))

-- In the order of their numbers, all of them above `lo`.
abbrev pub Ascending : ℕ → List Message → Type 0
Ascending lo [] = Unit
Ascending lo (m ∷ ms) = (lo < m.seq) × Ascending m.seq ms

-- Every message that matches and lies before `c` has its row.
abbrev pub Covered : ConsumerState → ℕ → List DeliveryRow → List Message → Type 0
Covered st c rows = All (λ m. m.seq < c → match_any st.filters m.subject ≡ true → HasRow m.seq rows)

beyond-Covered :
    (st : ConsumerState) (c lo : ℕ) (rows : List DeliveryRow) (ms : List Message)
    → c ≤ suc lo
    → Ascending lo ms
    → Covered st c rows ms
beyond-Covered st c lo rows [] le up = tt
beyond-Covered st c lo rows (m ∷ ms) le (lt, up) =
    ((λ before. absurd (omega arith)), beyond-Covered st c m.seq rows ms (omega arith) up)

pub admit-rest :
    (g : ℕ) (m : Message) (s : Scan)
    → ((admit g m s).declined ≡ s.declined)
      × ((admit g m s).last_examined ≡ s.last_examined)
      × ((admit g m s).scanned ≡ s.scanned)
unfolding admit
admit-rest g m s = ground arith

-- What a scan leaves behind covers the cursor that it gives.
abbrev pub Reaches : ConsumerState → ℕ → ℕ → List Message → Scan → Type 0
Reaches st limit next ms r = Covered st (cursor_after limit next r) r.rows ms

pub cursor_after-declined :
    (limit next n : ℕ) (s : Scan) → s.declined ≡ some n → cursor_after limit next s ≡ n
unfolding cursor_after
cursor_after-declined limit next n s h = rw h refl

cursor_after-full :
    (limit next : ℕ) (s : Scan)
    → s.declined ≡ none
    → s.scanned ≡ limit
    → cursor_after limit next s ≡ s.last_examined + 1
unfolding cursor_after
cursor_after-full limit next s h e = ground arith

-- `more` is what the limit of the query leaves unread.
scan-Reaches :
    (st : ConsumerState) (limit next : ℕ) (ms more : List Message) (s : Scan)
    → s.declined ≡ none
    → Ascending s.last_examined (ms ++ more)
    → (more ≡ []) ⊎ (s.scanned + length ms ≡ limit)
    → Reaches st limit next (ms ++ more) (scan st ms s)
unfolding scan
scan-Reaches st limit next [] more s fresh up (inl none_left) = rw none_left tt
scan-Reaches st limit next [] more s fresh up (inr all_read) =
    let e = cursor_after-full limit next s fresh (omega arith) in
    beyond-Covered st _ s.last_examined s.rows more (omega arith) up
scan-Reaches st limit next (m ∷ ms) more s fresh (lt, up) read =
    let seen = record s { scanned = suc s.scanned; last_examined = m.seq } in
    let taken = admit st.generation m seen in
    let (d, l, n) = admit-rest st.generation m seen in
    let stopped = record seen { declined = some m.seq } in
    let at = cursor_after-declined limit next m.seq stopped refl in
    let read' : (more ≡ []) ⊎ (suc s.scanned + length ms ≡ limit) = ground arith in
    let go_on = scan st ms (if match_any st.filters m.subject then taken else seen) in
    let full = match_any st.filters m.subject && leb_ℤ st.max_ack_pending (pos s.pending) in
    if_both (Reaches st limit next (m ∷ ms ++ more)) full stopped go_on
      (λ _. (
        (λ before. absurd (omega arith)),
        beyond-Covered st _ m.seq s.rows (ms ++ more) (omega arith) up,
      ))
      (λ _.
        if_both (λ x. Reaches st limit next (m ∷ ms ++ more) (scan st ms x))
          (match_any st.filters m.subject) taken seen
          (λ matched. (
            (λ _ _. scan-keeps st ms taken m.seq (admit-HasRow st.generation m seen)),
            scan-Reaches st limit next ms more taken (rw d fresh) (rw l up) (rw n read'),
          ))
          (λ skipped.
            ((λ _ matched. absurd (cc)), scan-Reaches st limit next ms more seen fresh up read')))

take_split : (n : ℕ) (ms : List Message) → (drop n ms ≡ []) ⊎ (0 + length (take n ms) ≡ n)
take_split zero ms = inr (omega arith)
take_split (suc n) [] = inl refl
take_split (suc n) (m ∷ ms) = ground (arith, take_split n ms)

pub Ascending-weaken : (lo hi : ℕ) (ms : List Message) → lo ≤ hi → Ascending hi ms → Ascending lo ms
Ascending-weaken lo hi [] le up = tt
Ascending-weaken lo hi (m ∷ ms) le (lt, up) = (omega arith, up)

pub at_or_after-Ascending :
    (cursor lo : ℕ) (ms : List Message) → Ascending lo ms → Ascending lo (at_or_after cursor ms)
at_or_after-Ascending cursor lo [] up = tt
at_or_after-Ascending cursor lo (m ∷ ms) (lt, up) =
    let rest = at_or_after-Ascending cursor m.seq ms up in
    if_both (Ascending lo) (ltb m.seq cursor) (at_or_after cursor ms) (m ∷ at_or_after cursor ms)
      (λ _. Ascending-weaken lo m.seq _ (omega arith) rest) (λ _. (lt, rest))

at_or_after-Covered :
    (st : ConsumerState) (cursor : ℕ) (rows : List DeliveryRow) (ms : List Message)
    → Covered st cursor rows (at_or_after cursor ms)
at_or_after-Covered st cursor rows [] = tt
at_or_after-Covered st cursor rows (m ∷ ms) =
    let rest = at_or_after-Covered st cursor rows ms in
    if_both (Covered st cursor rows) (ltb m.seq cursor) (at_or_after cursor ms)
      (m ∷ at_or_after cursor ms) (λ _. rest) (λ late. ((λ before. absurd (ground arith)), rest))

-- Flow control: a top-up that starts within `max_ack_pending` ends within it, and its count of the
-- pending rows stays the table's.
pub top_up-IsBounded :
    (st : ConsumerState) (stream_next limit : ℕ) (messages : List Message) (rows : List DeliveryRow)
    → pos (length rows) ≤ℤ st.max_ack_pending
    → IsBounded st.max_ack_pending (top_up st (length rows) stream_next limit messages rows).1
unfolding top_up
top_up-IsBounded st next limit ms rows within =
    scan-IsBounded st _ (scan_start (length rows) rows) (record { counted = refl; within = within })

-- Flow control delays and never drops: when the messages stand in the order of their numbers, each
-- message from the old cursor up to the new one whose subject matches has its row after the top-up.
pub top_up-Covered :
    (st : ConsumerState) (pending stream_next limit : ℕ) (messages : List Message)
    (rows : List DeliveryRow)
    → Ascending 0 messages
    → Covered st
        (top_up st pending stream_next limit messages rows).0
        (top_up st pending stream_next limit messages rows).1.rows
        (at_or_after st.cursor_seq messages)
unfolding top_up next_cursor
top_up-Covered st pending next limit ms rows up =
    let window = at_or_after st.cursor_seq ms in
    let start = scan_start pending rows in
    let done = scan st (take limit window) start in
    let split = take-append-drop limit window in
    let reached : Reaches st limit next window done =
      subst (λ w. Reaches st limit next w done) split
        (scan-Reaches st limit next (take limit window) (drop limit window) start refl
          (subst (Ascending 0) (sym split) (at_or_after-Ascending st.cursor_seq 0 ms up))
          (take_split limit window)) in
    let c = cursor_after limit next done in
    if_both (λ x. Covered st x done.rows window) (ltb c st.cursor_seq) st.cursor_seq c
      (λ _. at_or_after-Covered st st.cursor_seq done.rows ms) (λ _. reached)
