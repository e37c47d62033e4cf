-- ===== src/Store/Lifecycle/Admission/Scanning.antt =====
-- topUp's scan (internal/store/fetch.go): what it admits comes after the rows that are there.
use messq.Common.{
  ℕ, suc, ◌≤◌, ◌<◌, ◌≡◌, refl, sym, ◌∙◌, subst, ◌⊎◌, inl, inr, List, [], ◌∷◌, ◌++◌, Bool, true,
  ◌&&◌, Option, none, some, pos, leb_ℤ, arith, All, All-append, if_both, if◌then◌else◌, Bytes,
}
use messq.Subject.Match.{match_any}
use messq.Store.Rows.{Message, DeliveryRow, insert_row, Sorted}
use messq.Store.Fetch.{ConsumerState, Scan, admit, scan, new_row}
use messq.Store.Fetch.Cursor.{Ascending, admit-rest}
use messq.Store.Lifecycle.{HasMessage, Untouched, FreshLast}

abbrev pub Before : ℕ → List DeliveryRow → Type 0
Before n = All (λ (r : DeliveryRow). r.seq < n)

pub some-inj : {a b : ℕ} → ◌≡◌ {A = Option ℕ} (some a) (some b) → a ≡ b
some-inj h = cc

pub insert_row-last :
    (r : DeliveryRow) (rows : List DeliveryRow)
    → Before r.seq rows
    → insert_row r rows ≡ (rows ++ (r ∷ []), true)
unfolding insert_row
insert_row-last r [] h = refl
insert_row-last r (x ∷ rows) (lt, h) = ground (arith, insert_row-last r rows h)

Sorted-append :
    (lo : ℕ) (rows : List DeliveryRow) (r : DeliveryRow)
    → lo < r.seq
    → Before r.seq rows
    → Sorted lo rows
    → Sorted lo (rows ++ (r ∷ []))
Sorted-append lo [] r above h up = (above, tt)
Sorted-append lo (x ∷ rows) r above (lt, h) (first, up) =
    (first, Sorted-append x.seq rows r lt h up)

FreshLast-append :
    (rows : List DeliveryRow) (r : DeliveryRow)
    → r.attempts ≡ 0
    → FreshLast rows
    → FreshLast (rows ++ (r ∷ []))
FreshLast-append [] r fresh h = ((λ _. tt), tt)
FreshLast-append (x ∷ rows) r fresh (here, h) = (
  λ first. All-append (λ (x : DeliveryRow). x.attempts ≡ 0) rows (r ∷ []) (here first) (fresh, tt),
  FreshLast-append rows r fresh h,
)

-- Without the cursor.
abbrev pub Backed : List Message → ℕ → DeliveryRow → Type 0
Backed messages generation r =
    HasMessage r.seq r.subject messages × (r.generation ≡ generation) × Untouched r

-- Each row is of before the scan, or of a message that it has examined.
abbrev pub Examined : ℕ → ℕ → List DeliveryRow → Type 0
Examined cursor last = All (λ (r : DeliveryRow). (r.seq < cursor) ⊎ (r.seq ≤ last))

pub record InScan (messages : List Message) (next : ℕ) (st : ConsumerState) (s : Scan)
    : Type 0 where
  pub sorted : Sorted 0 s.rows
  pub backed : All (Backed messages st.generation) s.rows
  pub fresh_last : FreshLast s.rows
  pub examined : Examined st.cursor_seq s.last_examined s.rows
  pub last : s.last_examined < next

pub Examined-Before :
    (cursor last n : ℕ) (rows : List DeliveryRow)
    → cursor ≤ n
    → last < n
    → Examined cursor last rows
    → Before n rows
Examined-Before cursor last n [] c l h = tt
Examined-Before cursor last n (r ∷ rows) c l (here, h) = (
  elim here [ inl old ↦ omega arith | inr seen ↦ omega arith ],
  Examined-Before cursor last n rows c l h,
)

Examined-weaken :
    (cursor last n : ℕ) (rows : List DeliveryRow)
    → last ≤ n
    → Examined cursor last rows
    → Examined cursor n rows
Examined-weaken cursor last n [] le h = tt
Examined-weaken cursor last n (r ∷ rows) le (here, h) = (
  elim here [ inl old ↦ inl old | inr seen ↦ inr (omega arith) ],
  Examined-weaken cursor last n rows le h,
)

-- The messages that a scan reads: at or after the cursor, of the stream, and below its counter.
abbrev pub Window : List Message → ℕ → ℕ → List Message → Type 0
Window messages next cursor =
    All (λ (m : Message). (cursor ≤ m.seq) × HasMessage m.seq m.subject messages × (m.seq < next))

module _ (messages : List Message) (next : ℕ) (st : ConsumerState) where
  admit-InScan :
      (m : Message) (s : Scan)
      → (st.cursor_seq ≤ m.seq) × HasMessage m.seq m.subject messages × (m.seq < next)
      → s.last_examined < m.seq
      → InScan messages next st s
      → InScan messages next st
          (admit st.generation m (record s { scanned = suc s.scanned; last_examined = m.seq }))
  unfolding admit
  admit-InScan m s (after, there, under) later h =
      let r = new_row m st.generation in
      let before =
        Examined-Before st.cursor_seq s.last_examined m.seq s.rows after later h.examined in
      let rows = s.rows ++ (r ∷ []) in
      let in_scan : InScan messages next st (record s {
        scanned = suc s.scanned;
        last_examined = m.seq;
        rows = rows;
        pending = suc s.pending;
      }) =
        record {
          sorted = Sorted-append 0 s.rows r (omega arith) before h.sorted;
          backed =
              All-append (Backed messages st.generation) s.rows (r ∷ []) h.backed
                ((there, refl, λ _. (refl, refl)), tt);
          fresh_last = FreshLast-append s.rows r refl h.fresh_last;
          examined =
              All-append (λ (x : DeliveryRow). (x.seq < st.cursor_seq) ⊎ (x.seq ≤ m.seq)) s.rows
                (r ∷ [])
                (Examined-weaken st.cursor_seq s.last_examined m.seq s.rows (omega arith)
                  h.examined)
                (inr (omega arith), tt);
          last = under;
        } in
      subst
        (λ (out : List DeliveryRow × Bool). InScan messages next st (
          if out.1
          then record s {
            scanned = suc s.scanned;
            last_examined = m.seq;
            rows = out.0;
            pending = suc s.pending;
          }
          else record s {
            scanned = suc s.scanned;
            last_examined = m.seq;
            rows = out.0;
            conflicts = suc s.conflicts;
          }))
        (sym (insert_row-last r s.rows before)) in_scan

  -- Where the scan declined a message, the rows are all before it.
  abbrev pub Declined : Scan → Type 0
  Declined s =
      (n : ℕ)
      → s.declined ≡ some n
      → Before n s.rows × (st.cursor_seq ≤ n) × ((subject : Bytes) × HasMessage n subject messages)

  pub scan-InScan :
      (ms : List Message) (s : Scan)
      → Ascending s.last_examined ms
      → Window messages next st.cursor_seq ms
      → s.declined ≡ none
      → InScan messages next st s
      → InScan messages next st (scan st ms s) × Declined (scan st ms s)
  unfolding scan
  scan-InScan [] s up window fresh h = (h, λ n stopped. absurd (cc))
  scan-InScan (m ∷ ms) s (later, up) ((after, there, under), window) fresh h =
      let seen = record s { scanned = suc s.scanned; last_examined = m.seq } in
      let stopped = record seen { declined = some m.seq } in
      let wider =
        Examined-weaken st.cursor_seq s.last_examined m.seq s.rows (omega arith) h.examined in
      let before =
        Examined-Before st.cursor_seq s.last_examined m.seq s.rows after later h.examined in
      let (kept, last, _) = admit-rest st.generation m seen in
      let P = λ (r : Scan). InScan messages next st r × Declined r in
      if_both P (match_any st.filters m.subject && leb_ℤ st.max_ack_pending (pos s.pending)) stopped
        _
        (λ _. (
          record {
            sorted = h.sorted;
            backed = h.backed;
            fresh_last = h.fresh_last;
            examined = wider;
            last = under;
          },
          λ n at.
              subst
                (λ k.
                  Before k s.rows
                  × (st.cursor_seq ≤ k)
                  × ((subject : Bytes) × HasMessage k subject messages))
                (some-inj at) (before, after, (m.subject, there)),
        ))
        (λ _.
          if_both (λ x. P (scan st ms x)) (match_any st.filters m.subject)
            (admit st.generation m seen) seen
            (λ _.
              scan-InScan ms (admit st.generation m seen)
                (subst (λ k. Ascending k ms) (sym last) up) window (kept ∙ fresh)
                (admit-InScan m s (after, there, under) later h))
            (λ _. scan-InScan ms seen up window fresh (record {
              sorted = h.sorted;
              backed = h.backed;
              fresh_last = h.fresh_last;
              examined = wider;
              last = under;
            })))
