-- ===== src/Queue/Dlq.antt =====
-- internal/queue/dlq.go: the names of dead-letter streams, and the reason that a dead letter carries.
pub mod Naming
pub mod Truncation
use messq.Common.{
  ℕ, zero, suc, ◌+◌, ◌-◌, ◌/◌, ◌%◌, List, [], ◌∷◌, ◌++◌, Bool, true, false, not, ◌&&◌, ◌||◌, Option,
  none, some, Bytes, codes, has_prefix, has_suffix, ltb, leb, ◌==◌, if◌then◌else◌, length, take,
  drop,
}
use messq.Subject.Utf8.{decode_rune, runes, is_control}

abbrev pub dlq_suffix : Bytes
dlq_suffix = codes ".dlq"

unfoldable pub dlq_name : Bytes → Bytes
dlq_name stream = stream ++ dlq_suffix

unfoldable pub is_dlq : Bytes → Bool
unfolding has_suffix
is_dlq name = has_suffix name dlq_suffix

-- strings.TrimSuffix, of a text that has the suffix.
unfoldable pub origin_of : Bytes → Option Bytes
unfolding is_dlq
origin_of name = if is_dlq name then some (take (length name - length dlq_suffix) name) else none

-- A header map as an association list with one entry for each key.
abbrev pub Headers : Type 0
Headers = List (Bytes × Bytes)

abbrev pub reserved_prefix : Bytes
reserved_prefix = codes "Messq-"

unfoldable pub strip_provenance : Headers → Headers
strip_provenance [] = []
strip_provenance ((k, v) ∷ h) =
    let rest = strip_provenance h in if has_prefix k reserved_prefix then rest else (k, v) ∷ rest

-- unicode.IsSpace
is_space : ℕ → Bool
is_space r =
    (leb 9 r && leb r 13)
    || r == 0x20
    || r == 0x85
    || r == 0xA0
    || r == 0x1680
    || (leb 0x2000 r && leb r 0x200A)
    || r == 0x2028
    || r == 0x2029
    || r == 0x202F
    || r == 0x205F
    || r == 0x3000

-- utf8.EncodeRune, of a rune that decoding has produced.
encode_rune : ℕ → Bytes
encode_rune r =
    if ltb r 0x80
    then r ∷ []
    else if ltb r 0x800
    then (0xC0 + r / 64) ∷ (0x80 + r % 64) ∷ []
    else if ltb r 0x10000
    then (0xE0 + r / 4096) ∷ (0x80 + r / 64 % 64) ∷ (0x80 + r % 64) ∷ []
    else (0xF0 + r / 262144) ∷ (0x80 + r / 4096 % 64) ∷ (0x80 + r / 64 % 64) ∷ (0x80 + r % 64) ∷ []

hex_digit : ℕ → ℕ
hex_digit d = if ltb d 10 then b'0' + d else b'a' + (d - 10)

unfoldable pub control_escape : ℕ → Bytes
unfolding hex_digit
control_escape r =
    if r == 7
    then codes "\\a"
    else if r == 8
    then codes "\\b"
    else if r == 0x1B
    then codes "\\e"
    else codes "\\u00" ++ hex_digit (r / 16) ∷ hex_digit (r % 16) ∷ []

-- The loop of `truncateUTF8`: how many bytes it keeps. Each round passes one rune, so the length of
-- the text bounds the rounds.
unfoldable pub kept_bytes : ℕ → Bytes → ℕ → ℕ → ℕ
unfolding decode_rune
kept_bytes zero s most i = i
kept_bytes (suc f) s most i =
    let sz = (decode_rune (drop i s)).1 in
    let onward = kept_bytes f s most (i + sz) in
    if not (ltb i most) || ltb most (i + sz) then i else onward

unfoldable pub truncate_utf8 : Bytes → ℕ → Bytes
unfolding kept_bytes
truncate_utf8 s most =
    if most == 0 || leb (length s) most then s else take (kept_bytes (length s) s most 0) s

-- The loop of `SanitizeReason`; `in_space` is `inWS`.
unfoldable pub sanitized : List ℕ → Bool → Bytes
unfolding is_space control_escape encode_rune is_control
sanitized [] in_space = []
sanitized (r ∷ rs) in_space =
    let rest = sanitized rs (is_space r) in
    if is_space r
    then (if in_space then rest else b' ' ∷ rest)
    else if is_control r
    then control_escape r ++ rest
    else encode_rune r ++ rest

unfoldable pub sanitize_reason : Bytes → ℕ → Bytes × Bool
unfolding sanitized truncate_utf8 runes
sanitize_reason s max_bytes =
    let out = sanitized (runes s) false in
    if ltb 0 max_bytes && ltb max_bytes (length out)
    then (truncate_utf8 out max_bytes, true)
    else (out, false)
