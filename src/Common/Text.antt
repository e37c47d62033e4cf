-- ===== src/Common/Text.antt =====
-- Go strings as lists of bytes, and the functions of package strings that the program calls.
use Prim.Native.Nat.{ℕ}
use Prim.Native.Char.{code}
use Prim.Native.String.{String}
use mathlib.Core.Path.{◌≡◌, refl}
use mathlib.Core.Logic.{◌≢◌, ◌↔◌}
use mathlib.Core.Bool.{Bool, true, false, ◌&&◌, ◌||◌}
use mathlib.Core.Option.{Option, none, some}
use mathlib.Core.List.{List, [], ◌∷◌, ◌++◌}
use native.Mathlib.Omega.{arith}
use messq.Common.Tests.{◌==◌, if◌then◌else◌}

abbrev pub Bytes : Type 0
Bytes = List ℕ

-- The code points of a literal; these are its bytes, since every literal below is ASCII.
abbrev pub codes : String → Bytes
codes String.[] = []
codes (String.◌∷◌ c s) = code c ∷ codes s

unfoldable pub bytes_eq : Bytes → Bytes → Bool
bytes_eq [] [] = true
bytes_eq (a ∷ s) (b ∷ t) = a == b && bytes_eq s t
bytes_eq _ _ = false

bytes_eq→eq : (s t : Bytes) → bytes_eq s t ≡ true → s ≡ t
unfolding bytes_eq
bytes_eq→eq [] [] h = refl
bytes_eq→eq [] (b ∷ t) h = cc
bytes_eq→eq (a ∷ s) [] h = cc
bytes_eq→eq (a ∷ s) (b ∷ t) h = ground (arith, bytes_eq→eq s t)

pub bytes_eq_refl : (s : Bytes) → bytes_eq s s ≡ true
unfolding bytes_eq
bytes_eq_refl [] = refl
bytes_eq_refl (a ∷ s) = ground (arith, bytes_eq_refl s)

pub bytes_eq_iff : (s t : Bytes) → (bytes_eq s t ≡ true) ↔ (s ≡ t)
bytes_eq_iff s t = (bytes_eq→eq s t, λ e. rw e (bytes_eq_refl t))

-- strings.HasPrefix
unfoldable pub has_prefix : Bytes → Bytes → Bool
has_prefix s [] = true
has_prefix [] (b ∷ p) = false
has_prefix (a ∷ s) (b ∷ p) = a == b && has_prefix s p

-- strings.HasSuffix: some tail of the text is the suffix.
unfoldable pub has_suffix : Bytes → Bytes → Bool
unfolding bytes_eq
has_suffix [] p = bytes_eq [] p
has_suffix (a ∷ s) p = bytes_eq (a ∷ s) p || has_suffix s p

pub has_suffix-append : (s p : Bytes) → has_suffix (s ++ p) p ≡ true
unfolding has_suffix
has_suffix-append [] [] = refl
has_suffix-append [] (b ∷ p) = rw (bytes_eq_refl (b ∷ p))
has_suffix-append (a ∷ s) p = ground (arith, has_suffix-append s p)

-- strings.Cut at a byte, and strings.IndexByte with the two slices around the hit: the text before
-- the first such byte, and what follows it if there is one.
unfoldable pub cut : ℕ → Bytes → Bytes × Option Bytes
cut b [] = ([], none)
cut b (c ∷ s) =
    let (before, after) = cut b s in if c == b then ([], some s) else (c ∷ before, after)

module _ {ℓ κ} {A : Type ℓ} (P : A → Type κ) where
  abbrev pub All : List A → Type κ
  All [] = Unit
  All (x ∷ xs) = P x × All xs

  pub All-append : (xs ys : List A) → All xs → All ys → All (xs ++ ys)
  All-append [] ys _ hy = hy
  All-append (x ∷ xs) ys (px, hx) hy = (px, All-append xs ys hx hy)

  pub All-drop_prefix : (xs ys : List A) → All (xs ++ ys) → All ys
  All-drop_prefix [] ys h = h
  All-drop_prefix (x ∷ xs) ys h = All-drop_prefix xs ys h.1

abbrev pub Lacks : ℕ → Bytes → Type 0
Lacks b = All (λ c. c ≢ b)

-- A cut of a text that lacks the byte before it finds just that byte.
pub cut-append : (b : ℕ) (s t : Bytes) → Lacks b s → cut b (s ++ b ∷ t) ≡ (s, some t)
unfolding cut
cut-append b [] t h = ground arith
cut-append b (c ∷ s) t (hc, hs) = ground (arith, cut-append b s t hs)

pub cut-some :
    (b : ℕ) (s : Bytes) {rest : Bytes} → (cut b s).1 ≡ some rest → s ≡ (cut b s).0 ++ b ∷ rest
unfolding cut
cut-some b [] h = cc
cut-some b (c ∷ s) {rest} h = ground (arith, cut-some b s {rest = rest})

pub cut-none : (b : ℕ) (s : Bytes) → (cut b s).1 ≡ none → (cut b s).0 ≡ s
unfolding cut
cut-none b [] h = refl
cut-none b (c ∷ s) h = ground (arith, cut-none b s)
