-- ===== src/Store/Claim.antt =====
-- internal/store/fetch.go: claimReady, which hands out the rows that are due.
pub mod Once
use messq.Common.{
  ℕ, suc, ◌+◌, List, [], ◌∷◌, map, take, Bool, true, false, ◌&&◌, ◌||◌, Option, none, some, ℤ, pos,
  ltb_ℤ, leb_ℤ, add64, ◌==◌, if◌then◌else◌,
}
use messq.Queue.Settle.{DeliveryState, ready, inflight, is_ready}
use messq.Store.Rows.{Message, DeliveryRow}

pub record ClaimCandidate : Type 0 where
  pub seq : ℕ
  pub size : ℕ

-- The join with `messages`: the size of the message of the number given.
unfoldable pub size_of : ℕ → List Message → Option ℕ
size_of n [] = none
size_of n (m ∷ ms) = let rest = size_of n ms in if m.seq == n then some m.size else rest

-- WHERE state = 0 AND visible_at <= now
unfoldable pub is_due : ℤ → DeliveryRow → Bool
is_due now r = is_ready r.state && leb_ℤ r.visible_at now

abbrev pub add_candidate : Bool → ℕ → Option ℕ → List ClaimCandidate → List ClaimCandidate
add_candidate due n none rest = rest
add_candidate due n (some size) rest = if due then record { seq = n; size = size } ∷ rest else rest

unfoldable pub due_rows : ℤ → List Message → List DeliveryRow → List ClaimCandidate
unfolding is_due size_of
due_rows now messages [] = []
due_rows now messages (r ∷ rs) =
    add_candidate (is_due now r) r.seq (size_of r.seq messages) (due_rows now messages rs)

unfoldable pub read_claim_candidates : ℤ → ℕ → List Message → List DeliveryRow → List ClaimCandidate
unfolding due_rows
read_claim_candidates now batch messages rows = take batch (due_rows now messages rows)

-- The candidates after the first, as long as the byte budget allows.
unfoldable pub choose_more : ℤ → ℕ → List ClaimCandidate → List ClaimCandidate
choose_more max_bytes budget [] = []
choose_more max_bytes budget (c ∷ cs) =
    let rest = choose_more max_bytes (budget + c.size) cs in
    if ltb_ℤ max_bytes (pos (budget + c.size)) then [] else c ∷ rest

-- The first is taken even if it alone exceeds the budget.
unfoldable pub choose : ℤ → List ClaimCandidate → List ClaimCandidate
unfolding choose_more
choose max_bytes [] = []
choose max_bytes (c ∷ cs) = c ∷ choose_more max_bytes (0 + c.size) cs

-- seq IN (…)
unfoldable pub is_chosen : ℕ → List ClaimCandidate → Bool
is_chosen n [] = false
is_chosen n (c ∷ cs) = (c.seq == n) || is_chosen n cs

unfoldable pub claimed : ℤ → ℤ → DeliveryRow → DeliveryRow
claimed now ack_wait r = record r {
  state = inflight;
  attempts = suc r.attempts;
  visible_at = add64 now ack_wait;
  delivered_at = now;
}

unfoldable pub claim_row : ℤ → ℤ → List ClaimCandidate → DeliveryRow → DeliveryRow
unfolding claimed is_chosen
claim_row now ack_wait chosen r = if is_chosen r.seq chosen then claimed now ack_wait r else r

unfoldable pub apply_claim : ℤ → ℤ → List ClaimCandidate → List DeliveryRow → List DeliveryRow
unfolding claim_row
apply_claim now ack_wait chosen rows = map (claim_row now ack_wait chosen) rows

-- What is chosen, and the table after the claim.
unfoldable pub claim_ready :
    ℤ → ℤ → ℕ → ℤ → List Message → List DeliveryRow → List ClaimCandidate × List DeliveryRow
unfolding read_claim_candidates choose apply_claim
claim_ready now ack_wait batch max_bytes messages rows =
    let chosen = choose max_bytes (read_claim_candidates now batch messages rows) in
    (chosen, apply_claim now ack_wait chosen rows)
