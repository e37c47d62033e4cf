-- ===== src/Queue/Publish/Checks.antt =====
-- The validators of internal/queue/publish.go: what an accepted id looks like.
use messq.Common.{
  ◌≡◌, ◌≢◌, ◌≤◌, ◌<◌, ◌↔◌, [], ◌∷◌, true, Bytes, bytes_eq_iff, ok, arith, All, length,
}
use messq.Queue.Publish.{all_printable, validate_msg_id}

-- Neither a control character, nor a space, nor DEL.
abbrev pub Printable : Bytes → Type 0
Printable = All (λ c. (32 < c) × (c ≢ 127))

all_printable-Printable : (s : Bytes) → (all_printable s ≡ true) ↔ Printable s
unfolding all_printable
all_printable-Printable [] = ground arith
all_printable-Printable (c ∷ s) = ground (arith, all_printable-Printable s)

-- A message id is accepted exactly when it is at most 256 bytes long and printable; the empty one is.
pub validate_msg_id-Printable :
    (s : Bytes) → (validate_msg_id s ≡ ok tt) ↔ ((length s ≤ 256) × Printable s)
unfolding validate_msg_id
validate_msg_id-Printable [] = ground arith
validate_msg_id-Printable (c ∷ s) =
    ground (arith, all_printable-Printable (c ∷ s), bytes_eq_iff (c ∷ s) [])
