-- ===== src/Store/Lifecycle/Shrinks/Cut.antt =====
-- shrinkDeliveries (internal/store/consumer.go): the statement that drops the last of the fresh rows.
use messq.Common.{
  ℕ, zero, suc, ◌+◌, ◌<◌, ◌≡◌, refl, ap, subst, inl, inr, List, [], ◌∷◌, length, drop, true, false,
  ◌&&◌, ◌==◌, arith, All, Bool-cases, if_both,
}
use messq.Store.Rows.{DeliveryRow, Sorted}
use messq.Store.Consumers.Shrink.{is_fresh, fresh_seqs, is_in, delete_fresh}
use messq.Store.Lifecycle.{Untouched, FreshLast}
use messq.Store.Lifecycle.Evolve.{AllFresh, Sorted-weaken}
use messq.Store.Lifecycle.Admission.Scanning.{Before}

-- What goes leaves the order, and what holds of each row.
pub delete_fresh-Sorted :
    (seqs : List ℕ) (lo : ℕ) (rows : List DeliveryRow)
    → Sorted lo rows
    → Sorted lo (delete_fresh seqs rows)
unfolding delete_fresh
delete_fresh-Sorted seqs lo [] up = tt
delete_fresh-Sorted seqs lo (r ∷ rows) (lt, up) =
    let rest = delete_fresh-Sorted seqs r.seq rows up in
    if_both (Sorted lo) (is_fresh r && is_in r.seq seqs) (delete_fresh seqs rows)
      (r ∷ delete_fresh seqs rows)
      (λ _. Sorted-weaken lo r.seq (delete_fresh seqs rows) (omega arith) rest) (λ _. (lt, rest))

pub All-delete_fresh :
    (P : DeliveryRow → Type 0) (seqs : List ℕ) (rows : List DeliveryRow)
    → All P rows
    → All P (delete_fresh seqs rows)
unfolding delete_fresh
All-delete_fresh P seqs [] h = tt
All-delete_fresh P seqs (r ∷ rows) (here, h) =
    let rest = All-delete_fresh P seqs rows h in
    if_both (All P) (is_fresh r && is_in r.seq seqs) (delete_fresh seqs rows)
      (r ∷ delete_fresh seqs rows) (λ _. rest) (λ _. (here, rest))

pub delete_fresh-FreshLast :
    (seqs : List ℕ) (rows : List DeliveryRow) → FreshLast rows → FreshLast (delete_fresh seqs rows)
unfolding delete_fresh
delete_fresh-FreshLast seqs [] h = tt
delete_fresh-FreshLast seqs (r ∷ rows) (here, h) =
    let rest = delete_fresh-FreshLast seqs rows h in
    if_both FreshLast (is_fresh r && is_in r.seq seqs) (delete_fresh seqs rows)
      (r ∷ delete_fresh seqs rows) (λ _. rest)
      (λ _. (λ fresh. All-delete_fresh (λ x. x.attempts ≡ 0) seqs rows (here fresh), rest))

fresh-is_fresh : (r : DeliveryRow) → Untouched r → r.attempts ≡ 0 → is_fresh r ≡ true
unfolding is_fresh
fresh-is_fresh r untouched none = let (is_there, _) = untouched none in ground arith

is_fresh-attempts : (r : DeliveryRow) → is_fresh r ≡ true → r.attempts ≡ 0
unfolding is_fresh
is_fresh-attempts r h = ground arith

abbrev pub AllUntouched : List DeliveryRow → Type 0
AllUntouched = All Untouched

-- Rows that are all fresh, and all named, all go.
delete_fresh-all :
    (seqs : List ℕ) (rows : List DeliveryRow)
    → AllUntouched rows
    → AllFresh rows
    → ((n : ℕ) → is_in n (fresh_seqs rows) ≡ true → is_in n seqs ≡ true)
    → (delete_fresh seqs rows ≡ []) × (length (fresh_seqs rows) ≡ length rows)
unfolding delete_fresh fresh_seqs is_in
delete_fresh-all seqs [] u f named = (refl, refl)
delete_fresh-all seqs (r ∷ rows) (touch, u) (none, f) named =
    let fresh = fresh-is_fresh r touch none in
    let named' = rw fresh at named in
    let (gone, count) =
      delete_fresh-all seqs rows u f (λ n there. named' n (ground (arith, there))) in
    let here : is_in r.seq seqs ≡ true = named' r.seq (ground arith) in
    (rw (fresh, here) gone, rw fresh (ap suc count))

fresh_seqs-above :
    (lo m : ℕ) (rows : List DeliveryRow)
    → Sorted lo rows
    → is_in m (fresh_seqs rows) ≡ true
    → lo < m
unfolding fresh_seqs is_in
fresh_seqs-above lo m [] up h = cc
fresh_seqs-above lo m (r ∷ rows) (lt, up) h = ground (arith, fresh_seqs-above r.seq m rows up)

-- The first of the numbers dropped lies above what is below the rows, and below what is above them;
-- the rows that are left are before it, and as many as are named go.
pub record Drops (lo hi n : ℕ) (ns : List ℕ) (rows : List DeliveryRow) : Type 0 where
  pub above : lo < n
  pub below : n < hi
  pub named : (m : ℕ) → is_in m (n ∷ ns) ≡ true → lo < m
  pub before : Before n (delete_fresh (n ∷ ns) rows)
  pub count : length (delete_fresh (n ∷ ns) rows) + suc (length ns) ≡ length rows

-- A row below all that are named stays.
Drops-keep :
    (lo hi n : ℕ) (ns : List ℕ) (r : DeliveryRow) (rows : List DeliveryRow)
    → lo < r.seq
    → Drops r.seq hi n ns rows
    → Drops lo hi n ns (r ∷ rows)
unfolding delete_fresh
Drops-keep lo hi n ns r rows lt d =
    let stays : (is_fresh r && is_in r.seq (n ∷ ns)) ≡ false =
      elim (Bool-cases (is_in r.seq (n ∷ ns))) [
        | inl hit ↦ absurd (omega (arith, d.named r.seq hit))
        | inr miss ↦ ground arith
      ] in
    record {
      above = omega (arith, d.above);
      below = d.below;
      named = λ m h. omega (arith, d.named m h);
      before = rw stays (d.above, d.before);
      count = rw stays (omega (arith, d.count));
    }

Drops-all :
    (lo hi : ℕ) (r : DeliveryRow) (rows : List DeliveryRow)
    → lo < r.seq
    → r.seq < hi
    → Sorted r.seq rows
    → AllUntouched (r ∷ rows)
    → AllFresh (r ∷ rows)
    → is_fresh r ≡ true
    → Drops lo hi r.seq (fresh_seqs rows) (r ∷ rows)
unfolding is_in fresh_seqs
Drops-all lo hi r rows lt less up u f fresh =
    let (gone, count) =
      delete_fresh-all (r.seq ∷ fresh_seqs rows) (r ∷ rows) u f (λ m h. rw fresh at h) in
    let numbered : (m : ℕ) → is_in m (r.seq ∷ fresh_seqs rows) ≡ true → lo < m = λ m h.
      elim (Bool-cases (r.seq == m)) [
        | inl same ↦ ground arith
        | inr other ↦ omega (arith, fresh_seqs-above r.seq m rows up (rw other at h))
      ] in
    record {
      above = lt;
      below = less;
      named = λ m h. numbered m h;
      before = rw gone tt;
      count = rw gone (omega (arith, rw fresh at count));
    }

abbrev DropsOf : ℕ → ℕ → List DeliveryRow → List ℕ → Type 0
DropsOf lo hi rows [] = ⊥
DropsOf lo hi rows (n ∷ ns) = Drops lo hi n ns rows

pub delete_fresh-Drops :
    (lo hi k n : ℕ) (ns : List ℕ) (rows : List DeliveryRow)
    → Sorted lo rows
    → Before hi rows
    → AllUntouched rows
    → FreshLast rows
    → drop k (fresh_seqs rows) ≡ n ∷ ns
    → Drops lo hi n ns rows
unfolding fresh_seqs
delete_fresh-Drops lo hi zero n ns [] up under u last h = absurd (cc)
delete_fresh-Drops lo hi (suc k) n ns [] up under u last h = absurd (cc)
delete_fresh-Drops lo hi zero n ns (r ∷ rows) (lt, up) (less, under) (touch, u) (here, last) h =
    elim (Bool-cases (is_fresh r)) [
      | inl fresh ↦
          let none = is_fresh-attempts r fresh in
          let all_of : DropsOf lo hi (r ∷ rows) (r.seq ∷ fresh_seqs rows) =
            Drops-all lo hi r rows lt less up (touch, u) (none, here none) fresh in
          subst (DropsOf lo hi (r ∷ rows)) (rw fresh at h) all_of
      | inr other ↦
          Drops-keep lo hi n ns r rows lt
            (delete_fresh-Drops r.seq hi zero n ns rows up under u last (rw other at h))
    ]
delete_fresh-Drops lo hi (suc k) n ns (r ∷ rows) (lt, up) (less, under) (touch, u) (here, last) h =
    elim (Bool-cases (is_fresh r)) [
      | inl fresh ↦
          Drops-keep lo hi n ns r rows lt
            (delete_fresh-Drops r.seq hi k n ns rows up under u last (rw fresh at h))
      | inr other ↦
          Drops-keep lo hi n ns r rows lt
            (delete_fresh-Drops r.seq hi (suc k) n ns rows up under u last (rw other at h))
    ]

pub no_length : (xs : List ℕ) → length xs ≡ 0 → xs ≡ []
no_length [] h = refl
no_length (x ∷ xs) h = absurd (omega arith)

pub delete_fresh-none : (rows : List DeliveryRow) → delete_fresh [] rows ≡ rows
unfolding delete_fresh is_in
delete_fresh-none [] = refl
delete_fresh-none (r ∷ rows) = ground (arith, delete_fresh-none rows)

pub unnamed_stay :
    (seqs : List ℕ) (rows : List DeliveryRow)
    → All (λ r. is_fresh r ≡ true → is_in r.seq seqs ≡ true) rows
    → All (λ r. is_fresh r ≡ false) (delete_fresh seqs rows)
unfolding delete_fresh
unnamed_stay seqs [] h = tt
unnamed_stay seqs (r ∷ rows) (here, h) =
    let rest = unnamed_stay seqs rows h in
    if_both (All (λ x. is_fresh x ≡ false)) (is_fresh r && is_in r.seq seqs)
      (delete_fresh seqs rows) (r ∷ delete_fresh seqs rows) (λ _. rest)
      (λ stays. (ground (arith, here), rest))

pub is_in-fresh_seqs :
    (seqs : List ℕ) (rows : List DeliveryRow)
    → ((n : ℕ) → is_in n (fresh_seqs rows) ≡ true → is_in n seqs ≡ true)
    → All (λ r. is_fresh r ≡ true → is_in r.seq seqs ≡ true) rows
unfolding fresh_seqs is_in
is_in-fresh_seqs seqs [] h = tt
is_in-fresh_seqs seqs (r ∷ rows) h = (
  λ fresh. h r.seq (rw fresh (ground arith)),
  is_in-fresh_seqs seqs rows (λ n there. h n (ground (arith, there))),
)
