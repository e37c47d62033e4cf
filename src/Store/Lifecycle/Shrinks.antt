-- ===== src/Store/Lifecycle/Shrinks.antt =====
-- shrinkDeliveries (internal/store/consumer.go): the rows that it drops are the last ones, so that the
-- cursor that it moves back is past every row that it leaves.
pub mod Cut
use messq.Common.{
  ℕ, zero, suc, ◌+◌, ◌-◌, ◌≤◌, ◌<◌, ◌≡◌, refl, sym, ap, ◌∙◌, subst, ◌⊎◌, inl, inr, List, [], ◌∷◌,
  length, drop, length-drop, Bool, true, false, ◌&&◌, ◌||◌, pos, ltb, ◌==◌, arith, All, Bool-cases,
  if_both, if◌then◌else◌,
}
use messq.Queue.Settle.{is_ready}
use messq.Store.Rows.{Message, DeliveryRow, Sorted}
use messq.Store.Fetch.{ConsumerState}
use messq.Store.Consumers.Shrink.{is_fresh, fresh_seqs, is_in, delete_fresh, lowest_or, shrink_to}
use messq.Store.Lifecycle.{HasMessage, Untouched, RowOk, FreshLast, RowsOk}
use messq.Store.Lifecycle.Evolve.{AllFresh, Sorted-weaken}
use messq.Store.Lifecycle.Admission.{RowOk-Backed, Backed-RowOk}
use messq.Store.Lifecycle.Admission.Scanning.{Before, Backed}
use messq.Store.Lifecycle.Shrinks.Cut.{
  delete_fresh-Sorted, All-delete_fresh, delete_fresh-FreshLast, AllUntouched, Drops,
  delete_fresh-Drops, no_length, delete_fresh-none, unnamed_stay, is_in-fresh_seqs,
}

RowOk-Before :
    (messages : List Message) (st : ConsumerState) (rows : List DeliveryRow)
    → All (RowOk messages st) rows
    → Before st.cursor_seq rows × AllUntouched rows
RowOk-Before messages st [] h = (tt, tt)
RowOk-Before messages st (r ∷ rows) ((behind, _, _, untouched), h) =
    let (before, touch) = RowOk-Before messages st rows h in ((behind, before), (untouched, touch))

module _ (messages : List Message) (next : ℕ) (st : ConsumerState) where
  -- The cursor and the table that a cut at a tail of the fresh rows leaves.
  tail-RowsOk :
      (k : ℕ) (seqs : List ℕ) (rows : List DeliveryRow)
      → drop k (fresh_seqs rows) ≡ seqs
      → 1 ≤ st.cursor_seq
      → RowsOk messages st rows
      → RowsOk messages
          (record st { cursor_seq = lowest_or st.cursor_seq seqs })
          (delete_fresh seqs rows)
        × (1 ≤ lowest_or st.cursor_seq seqs)
        × (lowest_or st.cursor_seq seqs ≤ st.cursor_seq)
  tail-RowsOk k [] rows h one ok_rows =
      (subst (RowsOk messages st) (sym (delete_fresh-none rows)) ok_rows, one, omega arith)
  tail-RowsOk k (n ∷ ns) rows h one ok_rows =
      let (before, touch) = RowOk-Before messages st rows ok_rows.each in
      let d =
        delete_fresh-Drops 0 st.cursor_seq k n ns rows ok_rows.sorted before touch
          ok_rows.fresh_last h in
      let (backed, _) = RowOk-Backed messages next st rows ok_rows.each in
      let after = delete_fresh (n ∷ ns) rows in
      (
        record {
          sorted = delete_fresh-Sorted (n ∷ ns) 0 rows ok_rows.sorted;
          each =
              Backed-RowOk messages next st n after
                (All-delete_fresh (Backed messages st.generation) (n ∷ ns) rows backed) d.before;
          fresh_last = delete_fresh-FreshLast (n ∷ ns) rows ok_rows.fresh_last;
        },
        omega (arith, d.above),
        omega (arith, d.below),
      )

  pub shrink_to-RowsOk :
      (bound : ℕ) (rows : List DeliveryRow)
      → 1 ≤ st.cursor_seq
      → RowsOk messages st rows
      → let (c, after, over) = shrink_to bound st.cursor_seq rows in
        RowsOk messages (record st { cursor_seq = c }) after × (1 ≤ c) × (c ≤ st.cursor_seq)
  unfolding shrink_to
  shrink_to-RowsOk bound rows one ok_rows =
      let excess = length rows - bound in
      let seqs = fresh_seqs rows in
      let droppable = length seqs in
      let dropped = if ltb droppable excess then droppable else excess in
      let last = drop (droppable - dropped) seqs in
      if_both
        (λ (out : ℕ × List DeliveryRow × ℕ).
          RowsOk messages (record st { cursor_seq = out.0 }) out.1
          × (1 ≤ out.0)
          × (out.0 ≤ st.cursor_seq))
        (dropped == 0) (st.cursor_seq, rows, excess)
        (lowest_or st.cursor_seq last, delete_fresh last rows, excess - dropped)
        (λ _. (ok_rows, one, omega arith))
        (λ _. tail-RowsOk (droppable - dropped) last rows refl one ok_rows)

  tail-count :
      (k : ℕ) (seqs : List ℕ) (rows : List DeliveryRow)
      → drop k (fresh_seqs rows) ≡ seqs
      → RowsOk messages st rows
      → length (delete_fresh seqs rows) + length seqs ≡ length rows
  tail-count k [] rows h ok_rows = omega (arith, ap length (delete_fresh-none rows))
  tail-count k (n ∷ ns) rows h ok_rows =
      let (before, touch) = RowOk-Before messages st rows ok_rows.each in
      let d =
        delete_fresh-Drops 0 st.cursor_seq k n ns rows ok_rows.sorted before touch
          ok_rows.fresh_last h in
      d.count

  abbrev pub Settles : ℕ → ℕ → List DeliveryRow → Type 0
  Settles bound over after =
      (over ≡ length after - bound) × ((over ≡ 0) ⊎ All (λ r. is_fresh r ≡ false) after)

  -- As many go as are too many, or all the fresh ones.
  tail-Settles :
      (bound dropped : ℕ) (rows : List DeliveryRow)
      → RowsOk messages st rows
      → dropped ≤ length (fresh_seqs rows)
      → (dropped ≡ length rows - bound) ⊎ (dropped ≡ length (fresh_seqs rows))
      → Settles bound
          (length rows - bound - dropped)
          (delete_fresh (drop (length (fresh_seqs rows) - dropped) (fresh_seqs rows)) rows)
  tail-Settles bound dropped rows ok_rows le why =
      let seqs = fresh_seqs rows in
      let k = length seqs - dropped in
      let count = tail-count k (drop k seqs) rows refl ok_rows in
      let cut = length-drop k seqs in
      (
        omega arith,
        elim why [
          | inl enough ↦ inl (omega arith)
          | inr every ↦ inr (
              unnamed_stay (drop k seqs) rows (
                is_in-fresh_seqs (drop k seqs) rows (λ n there.
                  let all_of : 0 ≡ k = omega arith in
                  subst (λ j. is_in n (drop j seqs) ≡ true) all_of there)))
        ],
      )

  tail-Settles-nothing :
      (bound : ℕ) (rows : List DeliveryRow)
      → RowsOk messages st rows
      → (0 ≡ length rows - bound) ⊎ (0 ≡ length (fresh_seqs rows))
      → Settles bound (length rows - bound) rows
  tail-Settles-nothing bound rows ok_rows why =
      let seqs = fresh_seqs rows in
      let last = drop (length seqs - 0) seqs in
      let h = tail-Settles bound 0 rows ok_rows (omega arith) why in
      let gone : last ≡ [] = no_length last (omega (arith, length-drop (length seqs - 0) seqs)) in
      let same : delete_fresh last rows ≡ rows =
        ap (λ l. delete_fresh l rows) gone ∙ delete_fresh-none rows in
      let none_less : length rows - bound - 0 ≡ length rows - bound = omega arith in
      subst (λ after. Settles bound (length rows - bound) after) same
        (subst (λ n. Settles bound n (delete_fresh last rows)) none_less h)

  -- Lowering the bound of a sound consumer: what is reported as over the bound is what is over it in
  -- the table that is left, and if there is any, every row that is left has been delivered.
  pub shrink_to-settles :
      (bound : ℕ) (rows : List DeliveryRow)
      → RowsOk messages st rows
      → let (c, after, over) = shrink_to bound st.cursor_seq rows in
        (over ≡ length after - bound) × ((over ≡ 0) ⊎ All (λ r. is_fresh r ≡ false) after)
  unfolding shrink_to
  shrink_to-settles bound rows ok_rows =
      let excess = length rows - bound in
      let seqs = fresh_seqs rows in
      let droppable = length seqs in
      let dropped = if ltb droppable excess then droppable else excess in
      let last = drop (droppable - dropped) seqs in
      let (le, why) : (dropped ≤ droppable) × ((dropped ≡ excess) ⊎ (dropped ≡ droppable)) =
        if_both (λ d. (d ≤ droppable) × ((d ≡ excess) ⊎ (d ≡ droppable))) (ltb droppable excess)
          droppable excess (λ _. (omega arith, inr refl)) (λ enough. (ground arith, inl refl)) in
      let h = tail-Settles bound dropped rows ok_rows le why in
      if_both (λ (out : ℕ × List DeliveryRow × ℕ). Settles bound out.2 out.1) (dropped == 0)
        (st.cursor_seq, rows, excess)
        (lowest_or st.cursor_seq last, delete_fresh last rows, excess - dropped)
        (λ none.
          let why' : (0 ≡ excess) ⊎ (0 ≡ droppable) = elim why [
            | inl e ↦ inl (ground arith)
            | inr e ↦ inr (ground arith)
          ] in
          tail-Settles-nothing bound rows ok_rows why')
        (λ _. h)
