-- ===== src/Store/Lifecycle/Messages.antt =====
-- What publishes and retention (internal/store/commands.go, retention.go) do to the messages that a
-- consumer's rows stand for.
use messq.Common.{
  ℕ, suc, ◌<◌, ◌≡◌, refl, sym, subst, inl, inr, List, [], ◌∷◌, ◌++◌, Bool, true, false, not, ◌&&◌,
  ◌||◌, ◌==◌, All, arith, ℤ, if_both, if◌then◌else◌, Bytes,
}
use messq.Store.Rows.{Message, DeliveryRow, HasRow}
use messq.Store.Fetch.{ConsumerState}
use messq.Store.Fetch.Cursor.{Ascending, Ascending-weaken}
use messq.Store.Consumers.Start.{Stamp}
use messq.Store.Consumers.Start.Range.{InStream}
use messq.Store.Lifecycle.{HasMessage, AllUnder, RowOk, RowsOk}

HasMessage-append :
    (n : ℕ) (s : Bytes) (ms more : List Message) → HasMessage n s ms → HasMessage n s (ms ++ more)
HasMessage-append n s [] more h = absurd h
HasMessage-append n s (m ∷ ms) more (inl same) = inl same
HasMessage-append n s (m ∷ ms) more (inr h) = inr (HasMessage-append n s ms more h)

pub AllUnder-publish :
    (next : ℕ) (ms : List Message) (m : Message)
    → m.seq ≡ next
    → AllUnder next ms
    → AllUnder (suc next) (ms ++ (m ∷ []))
AllUnder-publish next [] m same h = (omega arith, tt)
AllUnder-publish next (x ∷ ms) m same (lt, h) = (omega arith, AllUnder-publish next ms m same h)

pub Ascending-publish :
    (lo next : ℕ) (ms : List Message) (m : Message)
    → m.seq ≡ next
    → lo < next
    → AllUnder next ms
    → Ascending lo ms
    → Ascending lo (ms ++ (m ∷ []))
Ascending-publish lo next [] m same above under up = (omega arith, tt)
Ascending-publish lo next (x ∷ ms) m same above (lt, under) (first, up) =
    (first, Ascending-publish x.seq next ms m same lt under up)

-- The rows stay sound where the messages that they stand for stay.
RowOk-moves :
    (ms ms' : List Message) (st : ConsumerState) (rows : List DeliveryRow)
    → ((n : ℕ) (s : Bytes) → HasRow n rows → HasMessage n s ms → HasMessage n s ms')
    → All (RowOk ms st) rows
    → All (RowOk ms' st) rows
RowOk-moves ms ms' st [] stay h = tt
RowOk-moves ms ms' st (r ∷ rows) stay ((behind, there, current, untouched), h) = (
  (behind, stay r.seq r.subject (inl refl) there, current, untouched),
  RowOk-moves ms ms' st rows (λ n s row. stay n s (inr row)) h,
)

RowsOk-moves :
    (ms ms' : List Message) (st : ConsumerState) (rows : List DeliveryRow)
    → ((n : ℕ) (s : Bytes) → HasRow n rows → HasMessage n s ms → HasMessage n s ms')
    → RowsOk ms st rows
    → RowsOk ms' st rows
RowsOk-moves ms ms' st rows stay h = record {
  sorted = h.sorted;
  each = RowOk-moves ms ms' st rows stay h.each;
  fresh_last = h.fresh_last;
}

pub RowsOk-publish :
    (ms : List Message) (m : Message) (st : ConsumerState) (rows : List DeliveryRow)
    → RowsOk ms st rows
    → RowsOk (ms ++ (m ∷ [])) st rows
RowsOk-publish ms m st rows =
    RowsOk-moves ms (ms ++ (m ∷ [])) st rows (λ n s _. HasMessage-append n s ms (m ∷ []))

unfoldable pub has_row : ℕ → List DeliveryRow → Bool
has_row n [] = false
has_row n (r ∷ rows) = (r.seq == n) || has_row n rows

has_row-HasRow : (n : ℕ) (rows : List DeliveryRow) → HasRow n rows → has_row n rows ≡ true
unfolding has_row
has_row-HasRow n [] h = absurd h
has_row-HasRow n (r ∷ rows) h = ground (arith, h, has_row-HasRow n rows)

-- DELETE FROM messages WHERE seq IN (…) AND NOT EXISTS (…), of the numbers that `picked` picks.
unfoldable pub evict : (ℕ → Bool) → List DeliveryRow → List Message → List Message
unfolding has_row
evict picked rows [] = []
evict picked rows (m ∷ ms) =
    let rest = evict picked rows ms in
    if picked m.seq && not (has_row m.seq rows) then rest else m ∷ rest

evict-keeps :
    (picked : ℕ → Bool) (rows : List DeliveryRow) (ms : List Message) (n : ℕ) (s : Bytes)
    → HasRow n rows
    → HasMessage n s ms
    → HasMessage n s (evict picked rows ms)
unfolding evict
evict-keeps picked rows [] n s row h = absurd h
evict-keeps picked rows (m ∷ ms) n s row h =
    if_both (HasMessage n s) (picked m.seq && not (has_row m.seq rows)) (evict picked rows ms)
      (m ∷ evict picked rows ms)
      (λ out. elim h [
        | inl (same, _) ↦
            let pinned = has_row-HasRow m.seq rows (subst (λ k. HasRow k rows) (sym same) row) in
            absurd (ground arith)
        | inr there ↦ evict-keeps picked rows ms n s row there
      ])
      (λ _. elim h [
        | inl same ↦ inl same
        | inr there ↦ inr (evict-keeps picked rows ms n s row there)
      ])

pub RowsOk-evict :
    (picked : ℕ → Bool) (ms : List Message) (st : ConsumerState) (rows : List DeliveryRow)
    → RowsOk ms st rows
    → RowsOk (evict picked rows ms) st rows
RowsOk-evict picked ms st rows =
    RowsOk-moves ms (evict picked rows ms) st rows (evict-keeps picked rows ms)

pub AllUnder-evict :
    (picked : ℕ → Bool) (rows : List DeliveryRow) (next : ℕ) (ms : List Message)
    → AllUnder next ms
    → AllUnder next (evict picked rows ms)
unfolding evict
AllUnder-evict picked rows next [] h = tt
AllUnder-evict picked rows next (m ∷ ms) (lt, h) =
    let rest = AllUnder-evict picked rows next ms h in
    if_both (AllUnder next) (picked m.seq && not (has_row m.seq rows)) (evict picked rows ms)
      (m ∷ evict picked rows ms) (λ _. rest) (λ _. (lt, rest))

pub Ascending-evict :
    (picked : ℕ → Bool) (rows : List DeliveryRow) (lo : ℕ) (ms : List Message)
    → Ascending lo ms
    → Ascending lo (evict picked rows ms)
unfolding evict
Ascending-evict picked rows lo [] up = tt
Ascending-evict picked rows lo (m ∷ ms) (lt, up) =
    let rest = Ascending-evict picked rows m.seq ms up in
    if_both (Ascending lo) (picked m.seq && not (has_row m.seq rows)) (evict picked rows ms)
      (m ∷ evict picked rows ms)
      (λ _. Ascending-weaken lo m.seq (evict picked rows ms) (omega arith) rest) (λ _. (lt, rest))

-- The numbers, and the times of the publishes, which the consumer does not keep.
abbrev pub stamps_of : (ℕ → ℤ) → List Message → List Stamp
stamps_of at [] = []
stamps_of at (m ∷ ms) = record { seq = m.seq; published_at = at m.seq } ∷ stamps_of at ms

pub stamps_of-InStream :
    (at : ℕ → ℤ) (lo next : ℕ) (ms : List Message)
    → Ascending lo ms
    → AllUnder next ms
    → InStream next (stamps_of at ms)
stamps_of-InStream at lo next [] up under = tt
stamps_of-InStream at lo next (m ∷ ms) (lt, up) (less, under) =
    ((omega arith, less), stamps_of-InStream at m.seq next ms up under)
