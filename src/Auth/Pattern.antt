-- ===== src/Auth/Pattern.antt =====
-- internal/auth/pattern.go: the patterns of stream names that a token is granted.
use messq.Common.{
  ℕ, [], ◌∷◌, Bool, true, false, ◌||◌, Option, none, some, Bytes, bytes_eq, cut, has_prefix, ◌==◌,
  Result, ok, err, ◌>>◌, require, not, if◌then◌else◌,
}
use messq.Errs.{Sentinel, bad_request}

pub record Pattern : Type 0 where
  pub raw : Bytes
  pub star : Bool
  pub prefix : Bool
  pub lit : Bytes

-- strings.Contains of one byte
abbrev pub has_byte : ℕ → Bytes → Bool
has_byte b [] = false
has_byte b (c ∷ s) = c == b || has_byte b s

-- What stands before the first star, and after it.
abbrev pub at_star : Bytes → Bytes × Option Bytes → Result Sentinel Pattern
at_star s (lit, none) = ok (record { raw = s; star = false; prefix = false; lit = s })
at_star s ([], some []) = ok (record { raw = s; star = true; prefix = false; lit = [] })
at_star s (c ∷ lit, some []) = ok (record { raw = s; star = false; prefix = true; lit = c ∷ lit })
at_star s (lit, some (c ∷ rest)) = err bad_request

unfoldable pub parse_pattern : Bytes → Result Sentinel Pattern
unfolding bytes_eq cut
parse_pattern s =
    require (not (bytes_eq s [])) bad_request
    >> (require (not (has_byte b'>' s)) bad_request >> at_star s (cut b'*' s))

unfoldable pub match : Pattern → Bytes → Bool
unfolding has_prefix bytes_eq
match p stream =
    if p.star then true else if p.prefix then has_prefix stream p.lit else bytes_eq stream p.lit
