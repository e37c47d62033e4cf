-- ===== src/Subject/Name/Facts.antt =====
-- What an accepted name is (rule S11).
use messq.Common.{
  ℕ, ◌≡◌, ◌≢◌, ◌≤◌, refl, [], ◌∷◌, Bool, true, false, Bytes, bytes_eq_iff, length, Lacks, ok, arith,
  ap, inl, inr, Bool-cases, ◌&&◌,
}
use messq.Subject.Name.{name_byte, all_name_bytes, validate_name}

and_inv : (a b : Bool) → (a && b) ≡ true → (a ≡ true) × (b ≡ true)
and_inv true b h = (refl, h)
and_inv false b h = cc

no_slash : (dots : Bool) → name_byte dots b'/' ≡ false
unfolding name_byte
no_slash true = refl
no_slash false = refl

-- A byte that is in no name, such as the separator of the ack token.
all_name_bytes-Lacks :
    (b : ℕ) (dots : Bool)
    → name_byte dots b ≡ false
    → (s : Bytes) → all_name_bytes dots s ≡ true
    → Lacks b s
unfolding all_name_bytes
all_name_bytes-Lacks b dots h [] e = tt
all_name_bytes-Lacks b dots h (c ∷ s) e =
    let (here, there) = and_inv (name_byte dots c) (all_name_bytes dots s) e in
    (λ same. cc (ap (name_byte dots) same, here, h), all_name_bytes-Lacks b dots h s there)

pub name_facts :
    (name : Bytes) (dots : Bool) (most : ℕ)
    → validate_name name dots most ≡ ok tt
    → (name ≢ []) × (length name ≤ most) × Lacks b'/' name
unfolding validate_name
name_facts name dots most h = elim (Bool-cases (all_name_bytes dots name)) [
  | inl e ↦ (
    ground (arith, bytes_eq_iff name []),
    ground arith,
    all_name_bytes-Lacks b'/' dots (no_slash dots) name e,
  )
  | inr e ↦ absurd (ground arith)
]
