-- ===== src/Subject/Utf8.antt =====
-- What internal/subject and internal/queue use of unicode/utf8 and unicode: decoding a text into
-- runes, the validity of a text, and the control characters.
use messq.Common.{
  ℕ, zero, suc, ◌+◌, ◌-◌, ◌*◌, List, [], ◌∷◌, map, Bool, true, not, ◌&&◌, ◌||◌, Bytes, ltb, leb,
  ◌==◌, if◌then◌else◌, length, drop,
}

abbrev pub rune_error : ℕ
rune_error = 0xFFFD

-- A byte that begins no well-formed rune counts as one error rune of width 1.
abbrev ill_formed : ℕ × ℕ
ill_formed = (rune_error, 1)

within : ℕ → ℕ → ℕ → Bool
within lo hi b = leb lo b && leb b hi

two_bytes : ℕ → Bytes → ℕ × ℕ
unfolding within
two_bytes a (b ∷ s) = if within 0x80 0xBF b then ((a - 0xC0) * 64 + (b - 0x80), 2) else ill_formed
two_bytes a [] = ill_formed

three_bytes : ℕ → Bytes → ℕ × ℕ
unfolding within
three_bytes a (b ∷ c ∷ s) =
    if within (if a == 0xE0 then 0xA0 else 0x80) (if a == 0xED then 0x9F else 0xBF) b
      && within 0x80 0xBF c
    then ((a - 0xE0) * 4096 + (b - 0x80) * 64 + (c - 0x80), 3)
    else ill_formed
three_bytes a s = ill_formed

four_bytes : ℕ → Bytes → ℕ × ℕ
unfolding within
four_bytes a (b ∷ c ∷ d ∷ s) =
    if within (if a == 0xF0 then 0x90 else 0x80) (if a == 0xF4 then 0x8F else 0xBF) b
      && within 0x80 0xBF c
      && within 0x80 0xBF d
    then ((a - 0xF0) * 262144 + (b - 0x80) * 4096 + (c - 0x80) * 64 + (d - 0x80), 4)
    else ill_formed
four_bytes a s = ill_formed

-- utf8.DecodeRuneInString: the rune and its width.
unfoldable pub decode_rune : Bytes → ℕ × ℕ
unfolding within two_bytes three_bytes four_bytes
decode_rune [] = (rune_error, 0)
decode_rune (a ∷ s) =
    if ltb a 0x80
    then (a, 1)
    else if within 0xC2 0xDF a
    then two_bytes a s
    else if within 0xE0 0xEF a
    then three_bytes a s
    else if within 0xF0 0xF4 a
    then four_bytes a s
    else ill_formed

-- The runes and widths that `range` over a string yields. The fuel is the length of the text, and
-- each rune takes a byte at least.
decode_all : ℕ → Bytes → List (ℕ × ℕ)
unfolding decode_rune
decode_all f [] = []
decode_all zero (a ∷ s) = []
decode_all (suc f) (a ∷ s) =
    let (r, w) = decode_rune (a ∷ s) in (r, w) ∷ decode_all f (drop w (a ∷ s))

unfoldable pub runes : Bytes → List ℕ
unfolding decode_all
runes s = map (λ p. p.0) (decode_all (length s) s)

all_well_formed : List (ℕ × ℕ) → Bool
all_well_formed [] = true
all_well_formed ((r, w) ∷ ps) = not (r == rune_error && w == 1) && all_well_formed ps

-- utf8.ValidString
unfoldable pub valid_string : Bytes → Bool
unfolding decode_all all_well_formed
valid_string s = all_well_formed (decode_all (length s) s)

-- unicode.IsControl
unfoldable pub is_control : ℕ → Bool
is_control r = ltb r 0x20 || (leb 0x7F r && ltb r 0xA0)
