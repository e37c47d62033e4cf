-- ===== src/Common/Int.antt =====
-- Signed integers over the native numbers, and Go's int64: the integers with wrap-around.
use Prim.Native.Nat.{ℕ, suc, ◌+◌, ◌-◌, ◌*◌, ◌/◌, ◌%◌, ◌^◌, ◌≤◌, ◌<◌}
use mathlib.Core.Path.{◌≡◌, refl}
use mathlib.Core.Logic.{◌⊎◌, inl, inr}
use mathlib.Core.Bool.{Bool}
use native.Mathlib.Omega.{arith}
use messq.Common.Tests.{ltb, leb, ◌==◌, if◌then◌else◌}

-- `negsuc n` is -(n + 1).
pub data ℤ : Type 0 where
  pos : ℕ → ℤ
  negsuc : ℕ → ℤ

abbrev pub pos_part : ℤ → ℕ
pos_part (pos n) = n
pos_part (negsuc n) = 0

abbrev pub neg_part : ℤ → ℕ
neg_part (pos n) = 0
neg_part (negsuc n) = suc n

-- a - b, as an integer.
abbrev pub sub_ℕ : ℕ → ℕ → ℤ
sub_ℕ a b = if leb b a then pos (a - b) else negsuc (b - a - 1)

infixl 65 ◌+ℤ◌ ◌-ℤ◌
infix 50 ◌≤ℤ◌ ◌<ℤ◌
unfoldable pub ◌+ℤ◌ : ℤ → ℤ → ℤ
a +ℤ b = sub_ℕ (pos_part a + pos_part b) (neg_part a + neg_part b)

unfoldable pub ◌-ℤ◌ : ℤ → ℤ → ℤ
a -ℤ b = sub_ℕ (pos_part a + neg_part b) (neg_part a + pos_part b)

infixl 70 ◌*ℤ◌
unfoldable pub ◌*ℤ◌ : ℤ → ℤ → ℤ
a *ℤ b =
    sub_ℕ (pos_part a * pos_part b + neg_part a * neg_part b)
      (pos_part a * neg_part b + neg_part a * pos_part b)

abbrev pub ◌≤ℤ◌ : ℤ → ℤ → Type 0
a ≤ℤ b = pos_part a + neg_part b ≤ pos_part b + neg_part a

abbrev pub ◌<ℤ◌ : ℤ → ℤ → Type 0
a <ℤ b = pos_part a + neg_part b < pos_part b + neg_part a

abbrev pub ltb_ℤ : ℤ → ℤ → Bool
ltb_ℤ a b = ltb (pos_part a + neg_part b) (pos_part b + neg_part a)

abbrev pub leb_ℤ : ℤ → ℤ → Bool
leb_ℤ a b = leb (pos_part a + neg_part b) (pos_part b + neg_part a)

abbrev pub eq_ℤ : ℤ → ℤ → Bool
eq_ℤ a b = pos_part a + neg_part b == pos_part b + neg_part a

pub +ℤ_parts :
    (a b : ℤ)
    → pos_part (a +ℤ b) + neg_part a + neg_part b ≡ neg_part (a +ℤ b) + pos_part a + pos_part b
unfolding ◌+ℤ◌
+ℤ_parts a b = ground arith

pub -ℤ_parts :
    (a b : ℤ)
    → pos_part (a -ℤ b) + neg_part a + pos_part b ≡ neg_part (a -ℤ b) + pos_part a + neg_part b
unfolding ◌-ℤ◌
-ℤ_parts a b = ground arith

pub eq_of_parts : (a b : ℤ) → pos_part a + neg_part b ≡ pos_part b + neg_part a → a ≡ b
eq_of_parts a b h = ground arith

pub -ℤ_zero : (a : ℤ) → a -ℤ pos 0 ≡ a
unfolding ◌-ℤ◌
-ℤ_zero a = ground arith

pub ruleset int_laws = (arith, +ℤ_parts, -ℤ_parts, eq_of_parts)

-- Go's `/` by a positive number rounds toward zero.
unfoldable pub quot : ℤ → ℕ → ℤ
quot (pos n) k = pos (n / k)
quot (negsuc n) k = sub_ℕ 0 (suc n / k)

-- Division that rounds down, as package time's UnixMilli does.
unfoldable pub fdiv : ℤ → ℕ → ℤ
fdiv (pos n) k = pos (n / k)
fdiv (negsuc n) k = negsuc (n / k)

-- The values of an int64.
abbrev pub InI64 : ℤ → Type 0
InI64 a = (pos_part a < 2 ^ 63) × (neg_part a ≤ 2 ^ 63)

-- The low 64 bits, read as an int64.
to_word : ℤ → ℕ
to_word (pos n) = n % 2 ^ 64
to_word (negsuc n) = 2 ^ 64 - 1 - n % 2 ^ 64

of_word : ℕ → ℤ
of_word w = if ltb w (2 ^ 63) then pos w else negsuc (2 ^ 64 - 1 - w)

unfoldable pub wrap64 : ℤ → ℤ
unfolding to_word of_word
wrap64 a = of_word (to_word a)

pub wrap64-id : (a : ℤ) → InI64 a → wrap64 a ≡ a
unfolding wrap64
wrap64-id (pos n) h = ground arith
wrap64-id (negsuc n) h = ground arith

-- int64 addition and subtraction.
unfoldable pub add64 : ℤ → ℤ → ℤ
unfolding ◌+ℤ◌ wrap64
add64 a b = wrap64 (a +ℤ b)

unfoldable pub sub64 : ℤ → ℤ → ℤ
unfolding ◌-ℤ◌ wrap64
sub64 a b = wrap64 (a -ℤ b)

pub add64-eq : (a b : ℤ) → InI64 (a +ℤ b) → add64 a b ≡ a +ℤ b
unfolding add64
add64-eq a b h = wrap64-id (a +ℤ b) h

pub sub64-eq : (a b : ℤ) → InI64 (a -ℤ b) → sub64 a b ≡ a -ℤ b
unfolding sub64
sub64-eq a b h = wrap64-id (a -ℤ b) h

unfoldable pub mul64 : ℤ → ℤ → ℤ
unfolding ◌*ℤ◌ wrap64
mul64 a b = wrap64 (a *ℤ b)

pub parts_normal : (a : ℤ) → (pos_part a ≡ 0) ⊎ (neg_part a ≡ 0)
parts_normal (pos n) = inr refl
parts_normal (negsuc n) = inl refl

pub pos_part-eq : (a : ℤ) → pos 0 ≤ℤ a → a ≡ pos (pos_part a)
pos_part-eq (pos n) h = refl
pos_part-eq (negsuc n) h = absurd (omega arith)
