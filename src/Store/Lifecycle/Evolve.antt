-- ===== src/Store/Lifecycle/Evolve.antt =====
-- What settles and sweeps (internal/store/settle.go, sweep.go) can do to the table: rows that were
-- delivered go, or change and stay delivered.
use messq.Common.{ℕ, suc, ◌≤◌, ◌<◌, ◌≡◌, sym, subst, List, [], ◌∷◌, Bool, true, All, arith, if_both}
use messq.Store.Rows.{Message, DeliveryRow, Sorted}
use messq.Store.Fetch.{ConsumerState}
use messq.Store.Settle.{delete_where, update_where}
use messq.Store.Lifecycle.{HasMessage, RowOk, FreshLast, RowsOk}

pub data Evolves : List DeliveryRow → List DeliveryRow → Type 0 where
  done : Evolves [] []
  keep : (r : DeliveryRow) {rs rs' : List DeliveryRow} → Evolves rs rs' → Evolves (r ∷ rs) (r ∷ rs')
  gone :
      (r : DeliveryRow) {rs rs' : List DeliveryRow}
      → 0 < r.attempts
      → Evolves rs rs'
      → Evolves (r ∷ rs) rs'
  moved :
      (r r' : DeliveryRow) {rs rs' : List DeliveryRow}
      → 0 < r.attempts
      → 0 < r'.attempts
      → r'.seq ≡ r.seq
      → (r'.generation ≡ r.generation) × (r'.subject ≡ r.subject)
      → Evolves rs rs'
      → Evolves (r ∷ rs) (r' ∷ rs')

pub Evolves-same : (rs : List DeliveryRow) → Evolves rs rs
Evolves-same [] = done
Evolves-same (r ∷ rs) = keep r (Evolves-same rs)

pub Sorted-weaken : (lo hi : ℕ) (rs : List DeliveryRow) → lo ≤ hi → Sorted hi rs → Sorted lo rs
Sorted-weaken lo hi [] le h = tt
Sorted-weaken lo hi (r ∷ rs) le (lt, h) = (omega arith, h)

Evolves-Sorted :
    (lo : ℕ) {rs rs' : List DeliveryRow} → Evolves rs rs' → Sorted lo rs → Sorted lo rs'
Evolves-Sorted lo done h = tt
Evolves-Sorted lo (keep r e) (lt, h) = (lt, Evolves-Sorted r.seq e h)
Evolves-Sorted lo (gone r {rs} {rs'} delivered e) (lt, h) =
    Sorted-weaken lo r.seq rs' (omega arith) (Evolves-Sorted r.seq e h)
Evolves-Sorted lo (moved r r' {rs} {rs'} d d' same g e) (lt, h) =
    (omega arith, subst (λ n. Sorted n rs') (sym same) (Evolves-Sorted r.seq e h))

moved-RowOk :
    (ms : List Message) (st : ConsumerState) (r r' : DeliveryRow)
    → 0 < r'.attempts
    → r'.seq ≡ r.seq
    → (r'.generation ≡ r.generation) × (r'.subject ≡ r.subject)
    → RowOk ms st r
    → RowOk ms st r'
moved-RowOk ms st r r' delivered same (g, subject) (behind, there, current, untouched) = (
  omega arith,
  subst (λ n. HasMessage n r'.subject ms) (sym same)
      (subst (λ s. HasMessage r.seq s ms) (sym subject) there),
  omega arith,
  λ none. absurd (omega arith),
)

Evolves-RowOk :
    (ms : List Message) (st : ConsumerState) {rs rs' : List DeliveryRow}
    → Evolves rs rs'
    → All (RowOk ms st) rs
    → All (RowOk ms st) rs'
Evolves-RowOk ms st done h = tt
Evolves-RowOk ms st (keep r e) (here, h) = (here, Evolves-RowOk ms st e h)
Evolves-RowOk ms st (gone r delivered e) (here, h) = Evolves-RowOk ms st e h
Evolves-RowOk ms st (moved r r' d d' same g e) (here, h) =
    (moved-RowOk ms st r r' d' same g here, Evolves-RowOk ms st e h)

abbrev pub AllFresh : List DeliveryRow → Type 0
AllFresh = All (λ (x : DeliveryRow). x.attempts ≡ 0)

Evolves-AllFresh : {rs rs' : List DeliveryRow} → Evolves rs rs' → AllFresh rs → AllFresh rs'
Evolves-AllFresh done h = tt
Evolves-AllFresh (keep r e) (here, h) = (here, Evolves-AllFresh e h)
Evolves-AllFresh (gone r delivered e) (here, h) = absurd (omega arith)
Evolves-AllFresh (moved r r' d d' same g e) (here, h) = absurd (omega arith)

Evolves-FreshLast : {rs rs' : List DeliveryRow} → Evolves rs rs' → FreshLast rs → FreshLast rs'
Evolves-FreshLast done h = tt
Evolves-FreshLast (keep r e) (here, h) =
    (λ fresh. Evolves-AllFresh e (here fresh), Evolves-FreshLast e h)
Evolves-FreshLast (gone r delivered e) (here, h) = Evolves-FreshLast e h
Evolves-FreshLast (moved r r' d d' same g e) (here, h) =
    (λ fresh. absurd (omega arith), Evolves-FreshLast e h)

pub Evolves-RowsOk :
    (ms : List Message) (st : ConsumerState) (rs rs' : List DeliveryRow)
    → Evolves rs rs'
    → RowsOk ms st rs
    → RowsOk ms st rs'
Evolves-RowsOk ms st rs rs' e ok_rows = record {
  sorted = Evolves-Sorted 0 e ok_rows.sorted;
  each = Evolves-RowOk ms st e ok_rows.each;
  fresh_last = Evolves-FreshLast e ok_rows.fresh_last;
}

pub delete_where-Evolves :
    (p : DeliveryRow → Bool) (rs : List DeliveryRow)
    → All (λ (r : DeliveryRow). p r ≡ true → 0 < r.attempts) rs
    → Evolves rs (delete_where p rs).0
unfolding delete_where
delete_where-Evolves p [] h = done
delete_where-Evolves p (r ∷ rs) (here, h) =
    let rest = delete_where-Evolves p rs h in
    if_both (λ (out : List DeliveryRow × ℕ). Evolves (r ∷ rs) out.0) (p r)
      ((delete_where p rs).0, suc (delete_where p rs).1)
      (r ∷ (delete_where p rs).0, (delete_where p rs).1) (λ hit. gone r (here hit) rest)
      (λ _. keep r rest)

pub update_where-Evolves :
    (p : DeliveryRow → Bool) (f : DeliveryRow → DeliveryRow) (rs : List DeliveryRow)
    → ((r : DeliveryRow)
        → ((f r).seq ≡ r.seq)
          × (((f r).generation ≡ r.generation) × ((f r).subject ≡ r.subject))
          × ((f r).attempts ≡ r.attempts))
    → All (λ (r : DeliveryRow). p r ≡ true → 0 < r.attempts) rs
    → Evolves rs (update_where p f rs).0
unfolding update_where
update_where-Evolves p f [] same h = done
update_where-Evolves p f (r ∷ rs) same (here, h) =
    let rest = update_where-Evolves p f rs same h in
    let (seq, generation, attempts) = same r in
    if_both (λ (out : List DeliveryRow × ℕ). Evolves (r ∷ rs) out.0) (p r)
      (f r ∷ (update_where p f rs).0, suc (update_where p f rs).1)
      (r ∷ (update_where p f rs).0, (update_where p f rs).1)
      (λ hit. let d = here hit in moved r (f r) d (omega arith) seq generation rest)
      (λ _. keep r rest)
