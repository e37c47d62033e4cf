-- ===== src/Queue/Dead/Budget.antt =====
-- The copy budget of one transaction (internal/queue/dead.go), over a run of guarded copies.
use messq.Common.{
  suc, ◌≤◌, ◌≡◌, List, [], ◌∷◌, true, Option, some, ℤ, pos, ◌<ℤ◌, ◌-ℤ◌, sub64, sub64-eq, InI64,
  int_laws, eq_of_parts, ◌∙◌, parts_normal, pos_part, arith, length, if◌then◌else◌, Bool-cases, inl,
  inr,
}
use messq.Queue.Dead.{DeadBudget, can_copy, spend}

-- The sizes that a transaction copies: each dead message asks `can_copy` first, and is left for a
-- later transaction if it is refused.
unfoldable pub copied : Option DeadBudget → List ℤ → List ℤ
copied b [] = []
copied b (size ∷ sizes) =
    let later = copied b sizes in
    let taken = size ∷ copied (spend b size) sizes in if can_copy b size then taken else later

copies_left : (b : DeadBudget) (size : ℤ) → can_copy (some b) size ≡ true → pos 0 <ℤ b.copies
unfolding can_copy
copies_left b size h = ground arith

one_less :
    (n : ℤ)
    → InI64 n
    → pos 0 <ℤ n
    → InI64 (sub64 n (pos 1)) × (suc (pos_part (sub64 n (pos 1))) ≡ pos_part n)
one_less n fits h =
    let inside = parts_normal (n -ℤ pos 1) in
    let normal = parts_normal n in
    rw (sub64-eq n (pos 1) (omega int_laws)) (omega int_laws, omega int_laws)

-- A transaction never makes more copies than its budget allows.
pub length-copied-le :
    (sizes : List ℤ) (b : DeadBudget)
    → InI64 b.copies
    → length (copied (some b) sizes) ≤ pos_part b.copies
unfolding copied spend
length-copied-le [] b h = omega arith
length-copied-le (size ∷ sizes) b h = elim (Bool-cases (can_copy (some b) size)) [
  | inl passes ↦
      let rest : DeadBudget = record {
        copies = sub64 b.copies (pos 1);
        bytes = sub64 b.bytes size;
      } in
      let (fits, fewer) = one_less b.copies h (copies_left b size passes) in
      rw passes (omega (arith, length-copied-le sizes rest fits))
  | inr refused ↦ rw refused (length-copied-le sizes b h)
]

minus_self : (n : ℤ) → n -ℤ n ≡ pos 0
minus_self n = eq_of_parts (n -ℤ n) (pos 0) (omega int_laws)

sub64_self : (n : ℤ) → sub64 n n ≡ pos 0
sub64_self n = sub64-eq n n (rw (minus_self n) (omega arith)) ∙ minus_self n

-- A copy that uses up the byte budget exactly lifts it: the next copy passes at any size.
pub exact_spend_lifts_bound :
    (b : DeadBudget) (size next : ℤ)
    → InI64 b.copies
    → pos 1 <ℤ b.copies
    → b.bytes ≡ size
    → pos 0 <ℤ size
    → (can_copy (some b) size ≡ true) × (can_copy (spend (some b) size) next ≡ true)
unfolding can_copy spend
exact_spend_lifts_bound b size next fits more same h =
    let (_, fewer) = one_less b.copies fits (omega arith) in
    let used_up : sub64 b.bytes size ≡ pos 0 = rw same (sub64_self size) in
    let normal = parts_normal (sub64 b.copies (pos 1)) in (ground arith, ground arith)
