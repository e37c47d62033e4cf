-- ===== src/Queue/Dlq/Truncation.antt =====
-- The bound on a header's reason (internal/queue/dlq.go).
use messq.Common.{ℕ, zero, suc, ◌+◌, ◌≤◌, ◌<◌, Bytes, length, length-take, drop, arith}
use messq.Subject.Utf8.{decode_rune}
use messq.Queue.Dlq.{kept_bytes, truncate_utf8}

kept_bytes-le : (f : ℕ) (s : Bytes) (most i : ℕ) → i ≤ most → kept_bytes f s most i ≤ most
unfolding kept_bytes
kept_bytes-le zero s most i h = h
kept_bytes-le (suc f) s most i h =
    ground (arith, kept_bytes-le f s most (i + (decode_rune (drop i s)).1))

-- A truncated text is at most as long as asked.
pub length-truncate_utf8-le :
    (s : Bytes) (most : ℕ) → 0 < most → length (truncate_utf8 s most) ≤ most
unfolding truncate_utf8
length-truncate_utf8-le s most h =
    ground
      (arith, kept_bytes-le (length s) s most 0, length-take {0} (kept_bytes (length s) s most 0) s)
