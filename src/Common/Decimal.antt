-- ===== src/Common/Decimal.antt =====
-- Decimal numbers: fmt's %d of a number that is not negative, and strconv.ParseUint in base 10 for
-- 64 bits.
pub mod RoundTrip
use Prim.Native.Nat.{ℕ, zero, suc, ◌+◌, ◌-◌, ◌*◌, ◌/◌, ◌%◌, ◌^◌}
use mathlib.Core.Bool.{◌&&◌}
use mathlib.Core.List.{[], ◌∷◌}
use mathlib.Core.Option.{Option, none, some}
use messq.Common.Tests.{ltb, leb, if◌then◌else◌}
use messq.Common.Text.{Bytes}

-- The digits of a number in front of `out`. The fuel bounds how many there are.
unfoldable pub digits_of : ℕ → ℕ → Bytes → Bytes
digits_of zero n out = out
digits_of (suc f) n out =
    let last = (b'0' + n % 10) ∷ out in
    let longer = digits_of f (n / 10) last in if ltb n 10 then last else longer

-- A uint64 has at most twenty digits.
unfoldable pub format : ℕ → Bytes
unfolding digits_of
format n = digits_of 20 n []

unfoldable pub read_digits : Bytes → ℕ → Option ℕ
read_digits [] v = some v
read_digits (c ∷ s) v =
    let w = v * 10 + (c - b'0') in
    if leb b'0' c && leb c b'9' && ltb w (2 ^ 64) then read_digits s w else none

unfoldable pub parse_uint : Bytes → Option ℕ
unfolding read_digits
parse_uint [] = none
parse_uint (c ∷ s) = read_digits (c ∷ s) 0
