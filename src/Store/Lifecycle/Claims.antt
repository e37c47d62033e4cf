-- ===== src/Store/Lifecycle/Claims.antt =====
-- claimReady (internal/store/fetch.go): it hands out the due rows from the first on, so that those
-- that it leaves undelivered are still the last ones.
use messq.Common.{
  ℕ, zero, suc, ◌+◌, ◌≤◌, ◌<◌, ◌≡◌, refl, sym, ap, ◌∙◌, subst, inl, inr, List, [], ◌∷◌, take, true,
  false, some, ℤ, pos, ◌≤ℤ◌, ltb_ℤ, ◌==◌, arith, All, Bool-cases, if_both, Bytes,
}
use messq.Queue.Settle.{is_ready}
use messq.Store.Rows.{Message, DeliveryRow, Sorted}
use messq.Store.Fetch.{ConsumerState}
use messq.Store.Claim.{
  ClaimCandidate, size_of, is_due, due_rows, read_claim_candidates, choose_more, choose, is_chosen,
  claimed, claim_row, apply_claim, claim_ready,
}
use messq.Store.Lifecycle.{HasMessage, Untouched, RowOk, FreshLast, RowsOk}
use messq.Store.Lifecycle.Evolve.{AllFresh}

-- The numbers of the one are the first numbers of the other.
abbrev Leads : List ClaimCandidate → List ClaimCandidate → Type 0
Leads [] ds = Unit
Leads (c ∷ cs) [] = ⊥
Leads (c ∷ cs) (d ∷ ds) = (c.seq ≡ d.seq) × Leads cs ds

Leads-trans : (a b c : List ClaimCandidate) → Leads a b → Leads b c → Leads a c
Leads-trans [] b c h k = tt
Leads-trans (x ∷ a) [] c h k = absurd h
Leads-trans (x ∷ a) (y ∷ b) [] h k = absurd k
Leads-trans (x ∷ a) (y ∷ b) (z ∷ c) (e, h) (f, k) = (e ∙ f, Leads-trans a b c h k)

take-Leads : (k : ℕ) (cs : List ClaimCandidate) → Leads (take k cs) cs
take-Leads zero cs = tt
take-Leads (suc k) [] = tt
take-Leads (suc k) (c ∷ cs) = (refl, take-Leads k cs)

choose_more-Leads :
    (max : ℤ) (budget : ℕ) (cs : List ClaimCandidate) → Leads (choose_more max budget cs) cs
unfolding choose_more
choose_more-Leads max budget [] = tt
choose_more-Leads max budget (c ∷ cs) =
    if_both (λ x. Leads x (c ∷ cs)) (ltb_ℤ max (pos (budget + c.size))) []
      (c ∷ choose_more max (budget + c.size) cs) (λ _. tt)
      (λ _. (refl, choose_more-Leads max (budget + c.size) cs))

choose-Leads : (max : ℤ) (cs : List ClaimCandidate) → Leads (choose max cs) cs
unfolding choose
choose-Leads max [] = tt
choose-Leads max (c ∷ cs) = (refl, choose_more-Leads max (0 + c.size) cs)

apply_claim-nothing : (now wait : ℤ) (rows : List DeliveryRow) → apply_claim now wait [] rows ≡ rows
unfolding apply_claim claim_row is_chosen
apply_claim-nothing now wait [] = refl
apply_claim-nothing now wait (r ∷ rows) = ap (λ rs. r ∷ rs) (apply_claim-nothing now wait rows)

-- A number that no row has chooses nothing.
apply_claim-skips :
    (now wait : ℤ) (c : ClaimCandidate) (cs : List ClaimCandidate) (lo : ℕ)
    (rows : List DeliveryRow)
    → c.seq ≤ lo
    → Sorted lo rows
    → apply_claim now wait (c ∷ cs) rows ≡ apply_claim now wait cs rows
unfolding apply_claim claim_row is_chosen
apply_claim-skips now wait c cs lo [] le up = refl
apply_claim-skips now wait c cs lo (r ∷ rows) le (lt, up) =
    ground (arith, apply_claim-skips now wait c cs r.seq rows (omega arith) up)

apply_claim-AllFresh :
    (now wait : ℤ) (rows : List DeliveryRow)
    → AllFresh rows
    → AllFresh (apply_claim now wait [] rows)
apply_claim-AllFresh now wait rows h = subst AllFresh (sym (apply_claim-nothing now wait rows)) h

-- A row that was never delivered, with its message there, is a candidate.
size_of-HasMessage :
    (n : ℕ) (subject : Bytes) (ms : List Message)
    → HasMessage n subject ms
    → (size : ℕ) × (size_of n ms ≡ some size)
unfolding size_of
size_of-HasMessage n subject [] h = absurd h
size_of-HasMessage n subject (m ∷ ms) h = elim (Bool-cases (m.seq == n)) [
  | inl same ↦ (m.size, rw same refl)
  | inr other ↦ elim h [
    | inl (e, _) ↦ absurd (ground arith)
    | inr there ↦
        let (size, found) = size_of-HasMessage n subject ms there in (size, rw other found)
  ]
]

fresh-is_due :
    (now : ℤ) (r : DeliveryRow) → pos 0 ≤ℤ now → Untouched r → r.attempts ≡ 0 → is_due now r ≡ true
unfolding is_due
fresh-is_due now r le untouched fresh =
    let (is_there, visible) = untouched fresh in rw (is_there, visible) (ground arith)

claim_row-delivered :
    (now wait : ℤ) (cs : List ClaimCandidate) (r : DeliveryRow)
    → 0 < r.attempts
    → 0 < (claim_row now wait cs r).attempts
unfolding claim_row claimed
claim_row-delivered now wait cs r h = ground arith

claim_row-rest :
    (now wait : ℤ) (cs : List ClaimCandidate) (r : DeliveryRow)
    → ((claim_row now wait cs r).seq ≡ r.seq)
      × (((claim_row now wait cs r).generation ≡ r.generation)
          × ((claim_row now wait cs r).subject ≡ r.subject))
      × ((claim_row now wait cs r).attempts ≡ 0 → claim_row now wait cs r ≡ r)
unfolding claim_row claimed
claim_row-rest now wait cs r = elim (Bool-cases (is_chosen r.seq cs)) [
  | inl hit ↦ rw hit (refl, (refl, refl), λ fresh. absurd (omega arith))
  | inr miss ↦ rw miss (refl, (refl, refl), λ _. refl)
]

module _ (messages : List Message) (st : ConsumerState) (now wait : ℤ) (le : pos 0 ≤ℤ now) where
  claimed_first :
      (c : ClaimCandidate) (cs : List ClaimCandidate) (r : DeliveryRow)
      → c.seq ≡ r.seq
      → (claim_row now wait (c ∷ cs) r).attempts ≡ 0
      → ⊥
  unfolding claim_row is_chosen claimed
  claimed_first c cs r same fresh = ground arith

  never :
      (cs : List ClaimCandidate) (r : DeliveryRow)
      → (0 < r.attempts → 0 < (claim_row now wait cs r).attempts)
      → (r.attempts ≡ 0 → is_due now r ≡ true)
      → is_due now r ≡ false
      → (claim_row now wait cs r).attempts ≡ 0
      → ⊥
  never cs r delivered due not_due fresh = ground arith

  -- Whatever the row is, it is no candidate, or the first one.
  claim-FreshLast :
      (lo : ℕ) (cs : List ClaimCandidate) (rows : List DeliveryRow)
      → Sorted lo rows
      → All (RowOk messages st) rows
      → FreshLast rows
      → Leads cs (due_rows now messages rows)
      → FreshLast (apply_claim now wait cs rows)
  unfolding apply_claim due_rows
  claim-FreshLast lo cs [] up h last leads = tt
  claim-FreshLast lo [] (r ∷ rows) up h last leads =
      subst FreshLast (sym (apply_claim-nothing now wait (r ∷ rows))) last
  claim-FreshLast lo (c ∷ cs) (r ∷ rows) (lt, up) ((_, there, _, untouched), h) (here, last) leads =
      let (size, found) = size_of-HasMessage r.seq r.subject messages there in
      elim (Bool-cases (is_due now r)) [
        | inl due ↦
            let (same, more) = rw (found, due) at leads in
            (
              λ fresh. absurd (claimed_first c cs r same fresh),
              subst FreshLast (sym (apply_claim-skips now wait c cs r.seq rows (omega arith) up))
                  (claim-FreshLast r.seq cs rows up h last more),
            )
        | inr not_due ↦
            let more = rw (found, not_due) at leads in
            (
              λ fresh.
                  let delivered = claim_row-delivered now wait (c ∷ cs) r in
                  let due = fresh-is_due now r le untouched in
                  absurd (never (c ∷ cs) r delivered due not_due fresh),
              claim-FreshLast r.seq (c ∷ cs) rows up h last more,
            )
      ]

  claim-Sorted :
      (lo : ℕ) (cs : List ClaimCandidate) (rows : List DeliveryRow)
      → Sorted lo rows
      → Sorted lo (apply_claim now wait cs rows)
  unfolding apply_claim
  claim-Sorted lo cs [] up = tt
  claim-Sorted lo cs (r ∷ rows) (lt, up) =
      let (same, _, _) = claim_row-rest now wait cs r in
      (
        omega arith,
        subst (λ n. Sorted n (apply_claim now wait cs rows)) (sym same)
            (claim-Sorted r.seq cs rows up),
      )

  claim-RowOk :
      (cs : List ClaimCandidate) (rows : List DeliveryRow)
      → All (RowOk messages st) rows
      → All (RowOk messages st) (apply_claim now wait cs rows)
  unfolding apply_claim
  claim-RowOk cs [] h = tt
  claim-RowOk cs (r ∷ rows) ((behind, there, current, untouched), h) =
      let (same, (generation, subject), kept) = claim_row-rest now wait cs r in
      (
        (
          omega arith,
          subst (λ n. HasMessage n (claim_row now wait cs r).subject messages) (sym same)
              (subst (λ s. HasMessage r.seq s messages) (sym subject) there),
          omega arith,
          λ fresh.
              subst (λ (x : DeliveryRow). (is_ready x.state ≡ true) × (x.visible_at ≡ pos 0))
                (sym (kept fresh))
                (untouched (ap (λ (x : DeliveryRow). x.attempts) (sym (kept fresh)) ∙ fresh)),
        ),
        claim-RowOk cs rows h,
      )

  pub claim_ready-RowsOk :
      (batch : ℕ) (max_bytes : ℤ) (rows : List DeliveryRow)
      → RowsOk messages st rows
      → RowsOk messages st (claim_ready now wait batch max_bytes messages rows).1
  unfolding claim_ready read_claim_candidates
  claim_ready-RowsOk batch max rows h =
      let cands = due_rows now messages rows in
      let chosen = choose max (take batch cands) in
      let leads =
        Leads-trans chosen (take batch cands) cands (choose-Leads max (take batch cands))
          (take-Leads batch cands) in
      record {
        sorted = claim-Sorted 0 chosen rows h.sorted;
        each = claim-RowOk chosen rows h.each;
        fresh_last = claim-FreshLast 0 chosen rows h.sorted h.each h.fresh_last leads;
      }
