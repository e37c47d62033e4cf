-- ===== src/Store/Claim/Once.antt =====
-- claimReady (internal/store/fetch.go): which rows a claim touches, and its byte budget.
use messq.Common.{
  ℕ, zero, suc, ◌+◌, ◌≤◌, ◌<◌, ◌≡◌, refl, List, [], ◌∷◌, take, length, Bool, true, false, Option,
  none, some, ℤ, pos, ◌≤ℤ◌, arith, All, inl, inr, ◌⊎◌, if_both,
}
use messq.Store.Rows.{Message, DeliveryRow, Sorted}
use messq.Store.Claim.{
  ClaimCandidate, size_of, is_due, add_candidate, due_rows, read_claim_candidates, choose_more,
  choose, is_chosen, claimed, claim_row, apply_claim, claim_ready,
}

abbrev pub sizes : List ClaimCandidate → ℕ
sizes [] = 0
sizes (c ∷ cs) = c.size + sizes cs

choose_more-le :
    (max_bytes : ℤ) (budget : ℕ) (cs : List ClaimCandidate)
    → (choose_more max_bytes budget cs ≡ [])
      ⊎ (pos (budget + sizes (choose_more max_bytes budget cs)) ≤ℤ max_bytes)
unfolding choose_more
choose_more-le max budget [] = inl refl
choose_more-le max budget (c ∷ cs) = ground (arith, choose_more-le max (budget + c.size) cs)

choose-le :
    (max_bytes : ℤ) (cs : List ClaimCandidate)
    → (length (choose max_bytes cs) ≤ 1) ⊎ (pos (sizes (choose max_bytes cs)) ≤ℤ max_bytes)
unfolding choose
choose-le max [] = inl (omega arith)
choose-le max (c ∷ cs) = ground (arith, choose_more-le max (0 + c.size) cs)

is_chosen-choose_more :
    (max_bytes : ℤ) (budget n : ℕ) (cs : List ClaimCandidate)
    → is_chosen n (choose_more max_bytes budget cs) ≡ true
    → is_chosen n cs ≡ true
unfolding choose_more is_chosen
is_chosen-choose_more max budget n [] h = h
is_chosen-choose_more max budget n (c ∷ cs) h =
    ground (arith, is_chosen-choose_more max (budget + c.size) n cs)

is_chosen-choose :
    (max_bytes : ℤ) (n : ℕ) (cs : List ClaimCandidate)
    → is_chosen n (choose max_bytes cs) ≡ true
    → is_chosen n cs ≡ true
unfolding choose is_chosen
is_chosen-choose max n [] h = h
is_chosen-choose max n (c ∷ cs) h = ground (arith, is_chosen-choose_more max (0 + c.size) n cs)

is_chosen-take :
    (k n : ℕ) (cs : List ClaimCandidate) → is_chosen n (take k cs) ≡ true → is_chosen n cs ≡ true
unfolding is_chosen
is_chosen-take zero n cs h = cc
is_chosen-take (suc k) n [] h = cc
is_chosen-take (suc k) n (c ∷ cs) h = ground (arith, is_chosen-take k n cs)

is_chosen-add_candidate :
    (due : Bool) (m n : ℕ) (size : Option ℕ) (rest : List ClaimCandidate)
    → is_chosen n (add_candidate due m size rest) ≡ true
    → ((m ≡ n) × (due ≡ true)) ⊎ (is_chosen n rest ≡ true)
unfolding is_chosen
is_chosen-add_candidate due m n none rest h = inr h
is_chosen-add_candidate true m n (some size) rest h = ground arith
is_chosen-add_candidate false m n (some size) rest h = inr h

-- A candidate's number stands above every bound of a sorted table.
due_rows-lt :
    (now : ℤ) (messages : List Message) (lo n : ℕ) (rows : List DeliveryRow)
    → Sorted lo rows
    → is_chosen n (due_rows now messages rows) ≡ true
    → lo < n
unfolding due_rows is_chosen
due_rows-lt now ms lo n [] up h = cc
due_rows-lt now ms lo n (r ∷ rs) (lt, up) h =
    elim (is_chosen-add_candidate (is_due now r) r.seq n (size_of r.seq ms) (due_rows now ms rs)
      h) [
        | inl (e, _) ↦ omega arith
        | inr later ↦ omega (arith, due_rows-lt now ms r.seq n rs up later)
      ]

no_other :
    (P : DeliveryRow → Type 0) (lo n : ℕ) (rows : List DeliveryRow)
    → n ≤ lo
    → Sorted lo rows
    → All (λ r. r.seq ≡ n → P r) rows
no_other P lo n [] le up = tt
no_other P lo n (r ∷ rs) le (lt, up) =
    ((λ e. absurd (omega arith)), no_other P r.seq n rs (omega arith) up)

due_rows-is_due :
    (now : ℤ) (messages : List Message) (lo n : ℕ) (rows : List DeliveryRow)
    → Sorted lo rows
    → is_chosen n (due_rows now messages rows) ≡ true
    → All (λ r. r.seq ≡ n → is_due now r ≡ true) rows
unfolding due_rows is_chosen
due_rows-is_due now ms lo n [] up h = tt
due_rows-is_due now ms lo n (r ∷ rs) (lt, up) h =
    elim (is_chosen-add_candidate (is_due now r) r.seq n (size_of r.seq ms) (due_rows now ms rs)
      h) [
        | inl (e, due) ↦ ((λ _. due), no_other _ r.seq n rs (omega arith) up)
        | inr later ↦
            let above = due_rows-lt now ms r.seq n rs up later in
            ((λ e. absurd (omega arith)), due_rows-is_due now ms r.seq n rs up later)
      ]

-- The byte budget: what a fetch claims fits it, or is a single message.
pub claim_ready-within_budget :
    (now ack_wait : ℤ) (batch : ℕ) (max_bytes : ℤ) (messages : List Message)
    (rows : List DeliveryRow)
    → (length (claim_ready now ack_wait batch max_bytes messages rows).0 ≤ 1)
      ⊎ (pos (sizes (claim_ready now ack_wait batch max_bytes messages rows).0) ≤ℤ max_bytes)
unfolding claim_ready
claim_ready-within_budget now wait batch max ms rows =
    choose-le max (read_claim_candidates now batch ms rows)

-- What a claim does to a row: it is left alone, or it was due and is handed out for one more attempt.
abbrev pub ClaimedOnce : ℤ → ℤ → DeliveryRow → DeliveryRow → Type 0
ClaimedOnce now ack_wait before after =
    (after ≡ before) ⊎ ((is_due now before ≡ true) × (after ≡ claimed now ack_wait before))

abbrev pub Pairwise :
    (DeliveryRow → DeliveryRow → Type 0) → List DeliveryRow → List DeliveryRow → Type 0
Pairwise P [] [] = Unit
Pairwise P [] (s ∷ ss) = ⊥
Pairwise P (r ∷ rs) [] = ⊥
Pairwise P (r ∷ rs) (s ∷ ss) = P r s × Pairwise P rs ss

apply_claim-ClaimedOnce :
    (now ack_wait : ℤ) (chosen : List ClaimCandidate) (rows : List DeliveryRow)
    → All (λ r. is_chosen r.seq chosen ≡ true → is_due now r ≡ true) rows
    → Pairwise (ClaimedOnce now ack_wait) rows (apply_claim now ack_wait chosen rows)
unfolding apply_claim claim_row
apply_claim-ClaimedOnce now wait chosen [] h = tt
apply_claim-ClaimedOnce now wait chosen (r ∷ rs) (here, there) = (
  if_both (ClaimedOnce now wait r) (is_chosen r.seq chosen) (claimed now wait r) r
      (λ yes'. inr (here yes', refl)) (λ _. inl refl),
  apply_claim-ClaimedOnce now wait chosen rs there,
)

-- The rows whose numbers are candidates' are due, read row by row.
All-due :
    (now : ℤ) (chosen : List ClaimCandidate) (rest : List DeliveryRow)
    → ((n : ℕ) → is_chosen n chosen ≡ true → All (λ r. r.seq ≡ n → is_due now r ≡ true) rest)
    → All (λ r. is_chosen r.seq chosen ≡ true → is_due now r ≡ true) rest
All-due now chosen [] h = tt
All-due now chosen (r ∷ rest) h =
    ((λ c. (h r.seq c).0 refl), All-due now chosen rest (λ n c. (h n c).1))

-- A claim touches a row only if it is ready and visible, so a message that another fetch holds is
-- not handed out again: in a table in the order of its numbers, every row is left alone, or was due
-- and is inflight with one attempt more.
pub claim_ready-ClaimedOnce :
    (now ack_wait : ℤ) (batch : ℕ) (max_bytes : ℤ) (messages : List Message)
    (rows : List DeliveryRow)
    → Sorted 0 rows
    → Pairwise
        (ClaimedOnce now ack_wait)
        rows
        (claim_ready now ack_wait batch max_bytes messages rows).1
unfolding claim_ready
claim_ready-ClaimedOnce now wait batch max ms rows up =
    let candidates = due_rows now ms rows in
    apply_claim-ClaimedOnce now wait (choose max (take batch candidates)) rows (
      All-due now (choose max (take batch candidates)) rows (λ n c.
        due_rows-is_due now ms 0 n rows up
          (is_chosen-take batch n candidates (is_chosen-choose max n (take batch candidates) c))))
