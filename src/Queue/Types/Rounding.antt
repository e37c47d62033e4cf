-- ===== src/Queue/Types/Rounding.antt =====
-- Rounding a time to milliseconds, before and after a delay is added to it.
use messq.Common.{ℕ, ◌+◌, ◌/◌, ◌^◌, ◌<◌, ◌≡◌, ◌≤ℤ◌, ◌+ℤ◌, pos, wrap64-id, add64, add64-eq, arith}
use messq.Queue.Types.{unix_milli, milliseconds, millisecond}

unix_milli-pos : (n : ℕ) → n < 2 ^ 63 → unix_milli (pos n) ≡ pos (n / millisecond)
unfolding unix_milli
unix_milli-pos n h = wrap64-id (pos (n / millisecond)) (omega arith)

+ℤ-pos : (a b : ℕ) → pos a +ℤ pos b ≡ pos (a + b)
unfolding ◌+ℤ◌
+ℤ-pos a b = ground arith

-- The sum of the rounded parts is the rounded sum, or a millisecond less.
pub rounded_sum :
    (n d : ℕ)
    → n + d < 2 ^ 63
    → (add64 (unix_milli (pos n)) (milliseconds (pos d)) ≤ℤ unix_milli (pos n +ℤ pos d))
      × (unix_milli (pos n +ℤ pos d) ≤ℤ add64 (unix_milli (pos n)) (milliseconds (pos d)) +ℤ pos 1)
unfolding milliseconds
rounded_sum n d h =
    let a = n / millisecond in
    let b = d / millisecond in
    rw (+ℤ-pos n d, unix_milli-pos (n + d) h, unix_milli-pos n (omega arith))
      (rw (add64-eq (pos a) (pos b) (rw (+ℤ-pos a b) (omega arith)), +ℤ-pos a b, +ℤ-pos (a + b) 1)
        (omega arith, omega arith))
