-- ===== src/Auth/TokenFile.antt =====
-- internal/auth/file.go: the token file, as the list of its lines. The lines are those of bufio.Scanner.
use messq.Common.{
  ℕ, List, [], ◌∷◌, ◌++◌, length, Bool, true, false, ◌||◌, not, Option, none, some, Bytes, bytes_eq,
  has_prefix, drop, leb, ◌==◌, if◌then◌else◌, Result, ok, err, ◌>>=◌, ◌>>◌, require,
}
use messq.Errs.{Sentinel, bad_request}
use messq.Auth.Pattern.{Pattern, parse_pattern}
use messq.Auth.Role.{split, parse_role_set}
use messq.Auth.Registry.{Token, valid_token_id}

abbrev pub max_token_line_bytes : ℕ
max_token_line_bytes = 8192

-- The byte order mark, in UTF-8.
abbrev bom : Bytes
bom = 0xEF ∷ 0xBB ∷ 0xBF ∷ []

unfoldable pub trim_bom : Bytes → Bytes
unfolding has_prefix
trim_bom line = if has_prefix line bom then drop 3 line else line

-- Whether an id or a hash was seen on an earlier line.
unfoldable pub has_id : Bytes → List Token → Bool
unfolding bytes_eq
has_id id [] = false
has_id id (t ∷ ts) = bytes_eq t.id id || has_id id ts

unfoldable pub has_hash : Bytes → List Token → Bool
unfolding bytes_eq
has_hash hash [] = false
has_hash hash (t ∷ ts) = bytes_eq t.hash hash || has_hash hash ts

unfoldable pub parse_patterns : List Bytes → Result Sentinel (List Pattern)
unfolding parse_pattern
parse_patterns [] = ok []
parse_patterns (s ∷ ss) = parse_pattern s >>= λ p. parse_patterns ss >>= λ ps. ok (p ∷ ps)

abbrev pub decoded : Option Bytes → Result Sentinel Bytes
decoded none = err bad_request
decoded (some hash) = ok hash

abbrev pub is_comment : Bytes → Bool
is_comment [] = true
is_comment (c ∷ line) = c == b'#'

-- `trim_space` is strings.TrimSpace, `fields` strings.Fields, `hex_decode` hex.DecodeString.
module _ (trim_space : Bytes → Bytes) (fields : Bytes → List Bytes)
    (hex_decode : Bytes → Option Bytes) where
  unfoldable pub parse_token : List Bytes → Result Sentinel Token
  unfolding valid_token_id parse_role_set split parse_patterns
  parse_token (id ∷ hash_field ∷ role_names ∷ streams ∷ []) = do
    require (valid_token_id id) bad_request
    require (length hash_field == 64) bad_request
    hash ← decoded (hex_decode hash_field)
    roles ← parse_role_set role_names
    patterns ← parse_patterns (split streams)
    ok (record { id = id; hash = hash; roles = roles; patterns = patterns })
  parse_token _ = err bad_request

  -- A line that is neither blank nor a comment adds its token.
  unfoldable pub parse_line : List Token → Bytes → Result Sentinel (List Token)
  unfolding parse_token has_id has_hash
  parse_line seen line =
      if is_comment line
      then ok seen
      else (parse_token (fields line) >>= λ t.
          require (not (has_id t.id seen)) bad_request
          >> (require (not (has_hash t.hash seen)) bad_request >> ok (seen ++ (t ∷ []))))

  unfoldable pub parse_lines : List Token → List Bytes → Result Sentinel (List Token)
  unfolding parse_line
  parse_lines seen [] = ok seen
  parse_lines seen (line ∷ lines) =
      require (leb (length line) max_token_line_bytes) bad_request
      >> (parse_line seen (trim_space line) >>= λ seen'. parse_lines seen' lines)

  unfoldable pub parse : List Bytes → Result Sentinel (List Token)
  unfolding parse_lines trim_bom
  parse [] = ok []
  parse (line ∷ lines) = parse_lines [] (trim_bom line ∷ lines)
