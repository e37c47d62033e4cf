-- ===== src/Store/Streams/Deletion.antt =====
-- The chunks of a deletion (internal/store/commands.go, delete.go): they end, they leave nothing, and
-- what they do to a stream that is there again.
use messq.Common.{
  ℕ, zero, suc, ◌≤◌, ◌<◌, ◌≡◌, refl, sym, ap, ap₂, ◌∙◌, sub64, subst, inl, inr, List, [], ◌∷◌,
  length, drop, true, false, ◌||◌, ◌==◌, Option, none, some, ℤ, arith, ltb, Bool-cases, length-drop,
  ltb→lt, if_both, if◌then◌else◌, ok, ok-inj,
}
use messq.Store.Streams.Tables.{StreamRow, StoredMessage, Tables}
use messq.Store.Streams.Admin.{
  delete_chunk_rows, reap_chunk, reap_resume, marked_chunk, reap_all, expired, sweep_rows,
  sweep_dedup, sweep_window, sweep_bound,
}
use messq.Store.Streams.Accounts.{IsLive, IsGone, IsConsistent, total_size, AllBelow}

drop_all : (n : ℕ) (ms : List StoredMessage) → length ms ≤ n → drop n ms ≡ []
drop_all zero [] h = refl
drop_all zero (m ∷ ms) h = absurd (omega arith)
drop_all (suc n) [] h = refl
drop_all (suc n) (m ∷ ms) h = drop_all n ms (omega arith)

drop_none : (n : ℕ) → drop {A = StoredMessage} n [] ≡ []
drop_none n = drop_all n [] (omega arith)

delete_chunk_rows_positive : 0 < delete_chunk_rows
unfolding delete_chunk_rows
delete_chunk_rows_positive = omega arith

some-not_none {ℓ} : {A : Type ℓ} {a : A} → ◌≡◌ {A = Option A} (some a) none → ⊥
some-not_none h = cc

pair-inj : {a b c d : ℕ} → ◌≡◌ {A = Option (ℕ × ℕ)} (some (a, b)) (some (c, d)) → a ≡ c
pair-inj h = cc

chunk-empty :
    (t : Tables)
    → (t.reap ≡ none → t.messages ≡ [])
    → (reap_chunk t).0.reap ≡ none
    → (reap_chunk t).0.messages ≡ []
unfolding reap_chunk
chunk-empty t empty unmarked = elim (Bool-cases (ltb (length t.messages) delete_chunk_rows)) [
  | inl short ↦ drop_all delete_chunk_rows t.messages (omega (arith, ltb→lt _ _ short))
  | inr full ↦
      ap (drop delete_chunk_rows) (empty (rw full at unmarked)) ∙ drop_none delete_chunk_rows
]

chunk-IsGone : (t : Tables) → IsGone t → IsGone (reap_chunk t).0
unfolding reap_chunk
chunk-IsGone t gone = record {
  no_row = gone.no_row;
  no_next = gone.no_next;
  no_stats = gone.no_stats;
  empty = chunk-empty t gone.empty;
}

marked-IsConsistent :
    (t : Tables) (reap : Option ℤ)
    → t.reap ≡ reap
    → IsConsistent t
    → IsConsistent (marked_chunk t reap).0
marked-IsConsistent t none e consistent = consistent
marked-IsConsistent t (some n) e (inl live) = absurd (some-not_none (sym e ∙ live.no_marker))
marked-IsConsistent t (some n) e (inr gone) = inr (chunk-IsGone t gone)

-- The background chunk, which looks for the marker first.
pub resume-IsConsistent : (t : Tables) → IsConsistent t → IsConsistent (reap_resume t).0
unfolding reap_resume
resume-IsConsistent t consistent = marked-IsConsistent t t.reap refl consistent

abbrev Done : Tables → Type 0
Done t = (t.messages ≡ []) × (t.reap ≡ none)

abbrev removed : Tables → ℕ
removed t =
    if ltb (length t.messages) delete_chunk_rows then length t.messages else delete_chunk_rows

stop-short :
    (t : Tables)
    → (ltb (length t.messages) delete_chunk_rows || (removed t == 0)) ≡ true
    → ltb (length t.messages) delete_chunk_rows ≡ true
stop-short t h = let positive = delete_chunk_rows_positive in ground arith

goes-long :
    (t : Tables)
    → (ltb (length t.messages) delete_chunk_rows || (removed t == 0)) ≡ false
    → delete_chunk_rows ≤ length t.messages
goes-long t h = ground arith

-- The loop over the chunks ends with no message and no marker.
pub reap_all-done :
    (fuel : ℕ) (t : Tables)
    → length t.messages < fuel
    → ((reap_all fuel t).messages ≡ []) × ((reap_all fuel t).reap ≡ none)
unfolding reap_all reap_chunk
reap_all-done zero t enough = absurd (omega arith)
reap_all-done (suc n) t enough =
    if_both Done (ltb (length t.messages) delete_chunk_rows || (removed t == 0)) _ _
      (λ stop.
        let short = stop-short t stop in
        (drop_all delete_chunk_rows t.messages (omega (arith, ltb→lt _ _ short)), rw short refl))
      (λ goes. reap_all-done n (reap_chunk t).0 (
        omega (
          arith,
          length-drop delete_chunk_rows t.messages,
          delete_chunk_rows_positive,
          goes-long t goes,
        )))

counts-differ :
    (t : Tables)
    → IsLive t
    → IsLive (reap_chunk t).0
    → length (drop delete_chunk_rows t.messages) < length t.messages
    → ⊥
unfolding reap_chunk
counts-differ t live live' fewer =
    let same = pair-inj (sym live.stats_are ∙ live'.stats_are) in omega (arith, same)

not_gone : (t : Tables) → IsLive t → IsGone (reap_chunk t).0 → ⊥
unfolding reap_chunk
not_gone t live gone = some-not_none (sym live.row_is ∙ gone.no_row)

-- A chunk that comes after the marker is gone takes the messages of a stream that is there again, and
-- leaves its counters as they were.
pub chunk-breaks :
    (t : Tables)
    → IsLive t
    → 0 < length t.messages
    → (length (reap_chunk t).0.messages < length t.messages) × (¬ IsConsistent (reap_chunk t).0)
unfolding reap_chunk
chunk-breaks t live some_there =
    let fewer : length (drop delete_chunk_rows t.messages) < length t.messages =
      omega (arith, length-drop delete_chunk_rows t.messages, delete_chunk_rows_positive) in
    (
      fewer,
      λ consistent. elim consistent [
        | inl live' ↦ counts-differ t live live' fewer
        | inr gone ↦ not_gone t live gone
      ],
    )

sweep-length :
    (before : ℤ) (budget : ℕ) (ms : List StoredMessage)
    → length (sweep_rows before budget ms).0 ≡ length ms
unfolding sweep_rows
sweep-length before budget [] = refl
sweep-length before zero (m ∷ ms) = refl
sweep-length before (suc budget) (m ∷ ms) =
    ground (arith, sweep-length before (suc budget) ms, sweep-length before budget ms)

sweep-total_size :
    (before : ℤ) (budget : ℕ) (ms : List StoredMessage)
    → total_size (sweep_rows before budget ms).0 ≡ total_size ms
unfolding sweep_rows
sweep-total_size before budget [] = refl
sweep-total_size before zero (m ∷ ms) = refl
sweep-total_size before (suc budget) (m ∷ ms) =
    ground (arith, sweep-total_size before (suc budget) ms, sweep-total_size before budget ms)

sweep-AllBelow :
    (n : ℕ) (before : ℤ) (budget : ℕ) (ms : List StoredMessage)
    → AllBelow n ms
    → AllBelow n (sweep_rows before budget ms).0
unfolding sweep_rows
sweep-AllBelow n before budget [] h = tt
sweep-AllBelow n before zero (m ∷ ms) h = h
sweep-AllBelow n before (suc budget) (m ∷ ms) (lt, h) = elim (Bool-cases (expired before m)) [
  | inl e ↦ rw e (lt, sweep-AllBelow n before budget ms h)
  | inr e ↦ rw e (lt, sweep-AllBelow n before (suc budget) ms h)
]

swept-IsConsistent :
    (now : ℤ) (t : Tables) (row : Option StreamRow) {t' : Tables} {cleared : ℕ}
    → sweep_window now t row ≡ ok (t', cleared)
    → t.row ≡ row
    → IsConsistent t
    → IsConsistent t'
swept-IsConsistent now t none h e consistent = cc
swept-IsConsistent now t (some r) h e (inr gone) = absurd (some-not_none (sym e ∙ gone.no_row))
swept-IsConsistent now t (some r) h e (inl live) =
    let before = sub64 now r.dedup_window_ms in
    let count = sweep-length before sweep_bound t.messages in
    let size = sweep-total_size before sweep_bound t.messages in
    subst IsConsistent (ap (λ p. p.0) (ok-inj h)) (
      inl (record {
        config = live.config;
        free = live.free;
        row_is = live.row_is;
        next_is = live.next_is;
        stats_are = live.stats_are ∙ ap₂ (λ a b. some (a, b)) (sym count) (sym size);
        below = sweep-AllBelow live.free before sweep_bound t.messages live.below;
        no_marker = live.no_marker;
      }))

-- Clearing keys changes no number, no counter and no size.
pub sweep-IsConsistent :
    (now : ℤ) (t t' : Tables) (cleared : ℕ)
    → sweep_dedup now t ≡ ok (t', cleared)
    → IsConsistent t
    → IsConsistent t'
unfolding sweep_dedup
sweep-IsConsistent now t t' cleared h consistent = swept-IsConsistent now t t.row h refl consistent
