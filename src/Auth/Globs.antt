-- ===== src/Auth/Globs.antt =====
-- Pattern (internal/auth/pattern.go) against what a pattern's text says.
use messq.Common.{
  ℕ, ◌≡◌, refl, sym, ap, ◌∙◌, subst, ◌↔◌, ◌⊎◌, inl, inr, ◌≢◌, [], ◌∷◌, ◌++◌, true, false, Option,
  none, some, Bytes, bytes_eq, bytes_eq_iff, cut, cut-some, has_prefix, Lacks, All-drop_prefix, ok,
  >>=-eq-ok, ok-inj, Bool-cases, ◌==◌, arith, require, not,
}
use messq.Errs.{bad_request}
use messq.Auth.Pattern.{Pattern, has_byte, at_star, parse_pattern, match}

-- A text without a star stands for itself; one that ends in its only star for every text that begins
-- with what is before it.
abbrev pub Globs : Bytes → Bytes → Type 0
Globs raw s =
    (Lacks b'*' raw × (s ≡ raw))
    ⊎ ((lit : Bytes) × (rest : Bytes) × (raw ≡ lit ++ (b'*' ∷ [])) × (s ≡ lit ++ rest))

pub has_prefix-some : (s p : Bytes) → has_prefix s p ≡ true → (rest : Bytes) × (s ≡ p ++ rest)
unfolding has_prefix
has_prefix-some s [] h = (s, refl)
has_prefix-some [] (b ∷ p) h = cc
has_prefix-some (a ∷ s) (b ∷ p) h =
    let (rest, same) = has_prefix-some s p (ground arith) in (rest, ground arith)

pub has_prefix-append : (p rest : Bytes) → has_prefix (p ++ rest) p ≡ true
unfolding has_prefix
has_prefix-append [] rest = refl
has_prefix-append (b ∷ p) rest = ground (arith, has_prefix-append p rest)

pub cut-Lacks : (b : ℕ) (s : Bytes) → (cut b s).1 ≡ none → Lacks b s
unfolding cut
cut-Lacks b [] h = tt
cut-Lacks b (c ∷ s) h = (ground arith, cut-Lacks b s (ground arith))

pub cut-before-Lacks : (b : ℕ) (s : Bytes) → Lacks b (cut b s).0
unfolding cut
cut-before-Lacks b [] = tt
cut-before-Lacks b (c ∷ s) = elim (Bool-cases (c == b)) [
  | inl e ↦ rw e tt
  | inr e ↦ rw e (ground arith, cut-before-Lacks b s)
]

Lacks-not_last : (b : ℕ) (lit : Bytes) → Lacks b (lit ++ (b ∷ [])) → ⊥
Lacks-not_last b lit h = (All-drop_prefix (λ c. c ≢ b) lit (b ∷ []) h).0 refl

snoc-inj : (xs ys : Bytes) (b : ℕ) → xs ++ (b ∷ []) ≡ ys ++ (b ∷ []) → xs ≡ ys
snoc-inj [] [] b h = refl
snoc-inj [] (y ∷ []) b h = cc
snoc-inj [] (y ∷ z ∷ ys) b h = cc
snoc-inj (x ∷ []) [] b h = cc
snoc-inj (x ∷ z ∷ xs) [] b h = cc
snoc-inj (x ∷ xs) (y ∷ ys) b h = ground (arith, snoc-inj xs ys b)

-- The pattern that is parsed from a cut that does not fail.
abbrev parsed : Bytes → Bytes × Option Bytes → Pattern
parsed s (lit, none) = record { raw = s; star = false; prefix = false; lit = s }
parsed s ([], some rest) = record { raw = s; star = true; prefix = false; lit = [] }
parsed s (c ∷ lit, some rest) = record { raw = s; star = false; prefix = true; lit = c ∷ lit }

at_star-ok :
    (s : Bytes) (at : Bytes × Option Bytes) {p : Pattern} → at_star s at ≡ ok p → parsed s at ≡ p
at_star-ok s (lit, none) h = ok-inj h
at_star-ok s ([], some []) h = ok-inj h
at_star-ok s (c ∷ lit, some []) h = ok-inj h
at_star-ok s ([], some (d ∷ rest)) h = cc
at_star-ok s (c ∷ lit, some (d ∷ rest)) h = cc

star-Globs :
    (raw s : Bytes) (p : Pattern) (before : Bytes) (after : Option Bytes)
    → (cut b'*' raw).0 ≡ before
    → (cut b'*' raw).1 ≡ after
    → at_star raw (before, after) ≡ ok p
    → (match p s ≡ true) ↔ Globs raw s
unfolding match
star-Globs raw s p before none e f h =
    let plain = cut-Lacks b'*' raw f in
    subst (λ p. (match p s ≡ true) ↔ Globs raw s) (at_star-ok raw (before, none) h)
      (
        (λ m. inl (plain, (bytes_eq_iff s raw).0 m)),
        (λ g. elim g [
          | inl (l, same) ↦ (bytes_eq_iff s raw).1 same
          | inr (lit, rest, ends, same) ↦
              absurd (Lacks-not_last b'*' lit (subst (Lacks b'*') ends plain))
        ]),
      )
star-Globs raw s p [] (some []) e f h =
    let ends : raw ≡ [] ++ (b'*' ∷ []) = cut-some b'*' raw f ∙ ap (λ l. l ++ (b'*' ∷ [])) e in
    subst (λ p. (match p s ≡ true) ↔ Globs raw s) (at_star-ok raw ([], some []) h)
      ((λ m. inr ([], s, ends, refl)), (λ g. refl))
star-Globs raw s p (c ∷ before) (some []) e f h =
    let ends : raw ≡ (c ∷ before) ++ (b'*' ∷ []) =
      cut-some b'*' raw f ∙ ap (λ l. l ++ (b'*' ∷ [])) e in
    subst (λ p. (match p s ≡ true) ↔ Globs raw s) (at_star-ok raw (c ∷ before, some []) h)
      (
        (λ m.
            let (rest, same) = has_prefix-some s (c ∷ before) m in
            inr (c ∷ before, rest, ends, same)),
        (λ g. elim g [
          | inl (plain, same) ↦
              absurd (Lacks-not_last b'*' (c ∷ before) (subst (Lacks b'*') ends plain))
          | inr (lit, rest, ends', same) ↦
              let lits = snoc-inj lit (c ∷ before) b'*' (sym ends' ∙ ends) in
              rw (same, lits) (has_prefix-append (c ∷ before) rest)
        ]),
      )
star-Globs raw s p [] (some (c ∷ rest)) e f h = cc
star-Globs raw s p (d ∷ before) (some (c ∷ rest)) e f h = cc

-- A parsed pattern matches exactly the texts that its own text stands for.
pub match-Globs :
    (raw s : Bytes) (p : Pattern) → parse_pattern raw ≡ ok p → (match p s ≡ true) ↔ Globs raw s
unfolding parse_pattern
match-Globs raw s p h =
    let (u, named, h) = >>=-eq-ok (require (not (bytes_eq raw [])) bad_request) _ h in
    let (v, plain, h) = >>=-eq-ok (require (not (has_byte b'>' raw)) bad_request) _ h in
    star-Globs raw s p (cut b'*' raw).0 (cut b'*' raw).1 refl refl h
