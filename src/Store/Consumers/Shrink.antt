-- ===== src/Store/Consumers/Shrink.antt =====
-- shrinkDeliveries (internal/store/consumer.go).
use messq.Common.{
  ℕ, ◌-◌, List, [], ◌∷◌, length, drop, Bool, false, ◌&&◌, ◌||◌, ℤ, pos_part, ltb, ◌==◌,
  if◌then◌else◌,
}
use messq.Queue.Settle.{is_ready}
use messq.Store.Rows.{DeliveryRow}

-- state = 0 AND attempts = 0
unfoldable pub is_fresh : DeliveryRow → Bool
is_fresh r = is_ready r.state && (r.attempts == 0)

-- SELECT seq … ORDER BY seq
unfoldable pub fresh_seqs : List DeliveryRow → List ℕ
unfolding is_fresh
fresh_seqs [] = []
fresh_seqs (r ∷ rs) = let rest = fresh_seqs rs in if is_fresh r then r.seq ∷ rest else rest

unfoldable pub is_in : ℕ → List ℕ → Bool
is_in n [] = false
is_in n (k ∷ ks) = (k == n) || is_in n ks

-- DELETE … WHERE state = 0 AND attempts = 0 AND seq IN (…)
unfoldable pub delete_fresh : List ℕ → List DeliveryRow → List DeliveryRow
unfolding is_fresh is_in
delete_fresh seqs [] = []
delete_fresh seqs (r ∷ rs) =
    let rest = delete_fresh seqs rs in if is_fresh r && is_in r.seq seqs then rest else r ∷ rest

-- The first number that is dropped. The query has a row wherever it is run.
abbrev pub lowest_or : ℕ → List ℕ → ℕ
lowest_or cursor [] = cursor
lowest_or cursor (n ∷ ns) = n

-- The cursor, the deliveries that are left, and how many of them are above the bound. The bound is a
-- number of rows; the last `dropped` of the fresh rows go.
unfoldable pub shrink_to : ℕ → ℕ → List DeliveryRow → ℕ × List DeliveryRow × ℕ
unfolding fresh_seqs delete_fresh
shrink_to bound cursor rows =
    let excess = length rows - bound in
    let seqs = fresh_seqs rows in
    let droppable = length seqs in
    let dropped = if ltb droppable excess then droppable else excess in
    let last = drop (droppable - dropped) seqs in
    if dropped == 0
    then (cursor, rows, excess)
    else (lowest_or cursor last, delete_fresh last rows, excess - dropped)

-- The configuration has been validated before, so the bound is positive.
unfoldable pub shrink_deliveries : ℤ → ℕ → List DeliveryRow → ℕ × List DeliveryRow × ℕ
unfolding shrink_to
shrink_deliveries bound cursor rows = shrink_to (pos_part bound) cursor rows
