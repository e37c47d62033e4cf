-- ===== src/Subject/Name.antt =====
-- internal/subject/subject.go: the names of streams and consumers (rule S11).
pub mod Facts
use messq.Common.{
  ℕ, ◌-◌, List, [], ◌∷◌, Bool, true, false, not, ◌&&◌, ◌||◌, Bytes, bytes_eq, ltb, leb, ◌==◌,
  length, Result, ◌>>=◌, ◌>>◌, require,
}
use messq.Subject.Grammar.{SubjectError, name_empty, name_too_long, name_charset, name_dot, dot}

abbrev pub max_stream_name_bytes : ℕ
max_stream_name_bytes = 64

-- Room for the suffix ".dlq" is left.
abbrev pub max_new_stream_name_bytes : ℕ
max_new_stream_name_bytes = max_stream_name_bytes - 4

abbrev pub max_consumer_name_bytes : ℕ
max_consumer_name_bytes = 64

unfoldable pub name_byte : Bool → ℕ → Bool
name_byte dots c =
    (leb b'a' c && leb c b'z')
    || (leb b'A' c && leb c b'Z')
    || (leb b'0' c && leb c b'9')
    || c == b'_'
    || c == b'-'
    || (c == dot && dots)

unfoldable pub all_name_bytes : Bool → Bytes → Bool
all_name_bytes dots [] = true
all_name_bytes dots (c ∷ s) = name_byte dots c && all_name_bytes dots s

unfoldable pub starts_with_dot : Bytes → Bool
starts_with_dot [] = false
starts_with_dot (c ∷ s) = c == dot

unfoldable pub ends_with_dot : Bytes → Bool
ends_with_dot [] = false
ends_with_dot (c ∷ []) = c == dot
ends_with_dot (c ∷ d ∷ s) = ends_with_dot (d ∷ s)

-- strings.Contains(name, "..")
unfoldable pub has_two_dots : Bytes → Bool
has_two_dots [] = false
has_two_dots (c ∷ []) = false
has_two_dots (c ∷ d ∷ s) = (c == dot && d == dot) || has_two_dots (d ∷ s)

unfoldable pub validate_name : Bytes → Bool → ℕ → Result SubjectError (Unit {0})
validate_name name dots max_bytes = do
  require (not (bytes_eq name [])) name_empty
  require (not (ltb max_bytes (length name))) name_too_long
  require (all_name_bytes dots name) name_charset
  require (not (dots && (starts_with_dot name || ends_with_dot name || has_two_dots name))) name_dot

unfoldable pub validate_stream_name : Bytes → Result SubjectError (Unit {0})
unfolding validate_name
validate_stream_name name = validate_name name true max_stream_name_bytes

unfoldable pub validate_new_stream_name : Bytes → Result SubjectError (Unit {0})
unfolding validate_name
validate_new_stream_name name = validate_name name true max_new_stream_name_bytes

unfoldable pub validate_consumer_name : Bytes → Result SubjectError (Unit {0})
unfolding validate_name
validate_consumer_name name = validate_name name false max_consumer_name_bytes
