-- ===== src/Subject/Grammar.antt =====
-- internal/subject/subject.go: parsing. `parse` walks a text token by token, and `classify` turns
-- one token's text into a compiled token.
pub mod Tokens
use messq.Common.{
  ℕ, zero, suc, ◌+◌, List, [], ◌∷◌, Bool, true, false, not, ◌&&◌, ◌||◌, Option, none, some, Bytes,
  codes, bytes_eq, cut, ltb, ◌==◌, if◌then◌else◌, length, take, Result, ok, err, ◌>>=◌, ◌>>◌,
  require,
}
use messq.Errs.{Sentinel, bad_subject, bad_request}
use messq.Subject.Utf8.{runes, valid_string, is_control}

abbrev pub max_subject_bytes : ℕ
max_subject_bytes = 512

abbrev pub max_tokens : ℕ
max_tokens = 32

pub data SubjectError : Type 0 where
  empty_subject empty_token subject_too_long too_many_tokens invalid_utf8 : SubjectError
  control_char wildcard_in_token gt_not_last wildcard_not_allowed empty_set : SubjectError
  name_empty name_too_long name_charset name_dot : SubjectError

-- The class that each of the grammar's errors wraps.
unfoldable pub class_of : SubjectError → Sentinel
class_of name_empty = bad_request
class_of name_too_long = bad_request
class_of name_charset = bad_request
class_of name_dot = bad_request
class_of _ = bad_subject

-- The struct `token`, split by kind: the two wildcards carry no text.
pub data Token : Type 0 where
  literal : Bytes → Token
  star gt : Token

abbrev pub dot : ℕ
dot = b'.'

abbrev pub star_text : Bytes
star_text = b'*' ∷ []

abbrev pub gt_text : Bytes
gt_text = b'>' ∷ []

-- The loop over the runes of a token that is no wildcard.
check_runes : Bool → List ℕ → Result SubjectError (Unit {0})
check_runes wildcards [] = ok tt
check_runes wildcards (r ∷ rs) =
    let rest = check_runes wildcards rs in
    if r == b'*' || r == b'>'
    then err (if wildcards then wildcard_in_token else wildcard_not_allowed)
    else if r == b' ' || is_control r
    then err control_char
    else rest

unfoldable pub classify : Bytes → Bool → Bool → Result SubjectError Token
unfolding check_runes bytes_eq
classify seg wildcards last =
    if bytes_eq seg []
    then err empty_token
    else if bytes_eq seg star_text
    then (if wildcards then ok star else err wildcard_not_allowed)
    else if bytes_eq seg gt_text
    then (if wildcards then (if last then ok gt else err gt_not_last) else err wildcard_not_allowed)
    else (do check_runes wildcards (runes seg); ok (literal seg))

-- One round of the loop of `parse`: the token before the next dot, then what follows the dot.
unfoldable pub parse_segment :
    (Bytes → Result SubjectError (List Token))
    → Bool
    → Bytes × Option Bytes
    → Result SubjectError (List Token)
parse_segment next wildcards (seg, none) = do t ← classify seg wildcards true; ok (t ∷ [])
parse_segment next wildcards (seg, some rest) = do
  t ← classify seg wildcards false
  ts ← next rest
  ok (t ∷ ts)

-- The loop of `parse`. The first argument is `MaxTokens - len(tokens)`, so the test
-- `len(tokens) == MaxTokens` is its clause for zero.
unfoldable pub parse_tokens : ℕ → Bool → Bytes → Result SubjectError (List Token)
unfolding parse_segment
parse_tokens zero wildcards rest = err too_many_tokens
parse_tokens (suc room) wildcards rest =
    parse_segment (parse_tokens room wildcards) wildcards (cut dot rest)

unfoldable pub parse : Bytes → Bool → Result SubjectError (List Token)
unfolding parse_tokens bytes_eq
parse s wildcards = do
  require (not (bytes_eq s [])) empty_subject
  require (not (ltb max_subject_bytes (length s))) subject_too_long
  require (valid_string s) invalid_utf8
  parse_tokens max_tokens wildcards s

unfoldable pub parse_subject : Bytes → Result SubjectError Bytes
unfolding parse
parse_subject s = do parse s false >>= (λ _. ok tt); ok s

-- The literal prefix of every subject that matches. `end` counts the bytes of the literal tokens
-- passed so far, each with its dot.
literal_prefix : Bytes → ℕ → List Token → Bytes
literal_prefix raw end [] = raw
literal_prefix raw end (literal lit ∷ ts) = literal_prefix raw (end + (length lit + 1)) ts
literal_prefix raw end (_ ∷ ts) = take end raw

pub record Pattern : Type 0 where
  pub raw : Bytes
  pub tokens : List Token
  pub prefix : Bytes
  pub has_gt : Bool
  pub has_star : Bool

any_gt : List Token → Bool
any_gt [] = false
any_gt (gt ∷ ts) = true
any_gt (_ ∷ ts) = any_gt ts

any_star : List Token → Bool
any_star [] = false
any_star (star ∷ ts) = true
any_star (_ ∷ ts) = any_star ts

-- The pattern of a text and its tokens.
unfoldable pub compiled : Bytes → List Token → Pattern
unfolding literal_prefix any_gt any_star
compiled s ts = record {
  raw = s;
  tokens = ts;
  prefix = literal_prefix s 0 ts;
  has_gt = any_gt ts;
  has_star = any_star ts;
}

unfoldable pub parse_pattern : Bytes → Result SubjectError Pattern
unfolding parse compiled
parse_pattern s = do ts ← parse s true; ok (compiled s ts)

-- The zero Pattern has no tokens, and is not literal.
unfoldable pub is_literal : Pattern → Bool
is_literal p = ltb 0 (length p.tokens) && not p.has_gt && not p.has_star

seen : Bytes → List Bytes → Bool
seen r [] = false
seen r (x ∷ xs) = bytes_eq r x || seen r xs

-- The loop of `ParseSet`. The second argument holds the texts seen so far.
set_from : List Bytes → List Bytes → Result SubjectError (List Pattern)
unfolding parse_pattern seen
set_from [] known = ok []
set_from (r ∷ rs) known =
    let others = set_from rs known in
    let added = (do p ← parse_pattern r; ps ← set_from rs (r ∷ known); ok (p ∷ ps)) in
    if seen r known then others else added

-- A compiled disjunction: the list of its patterns.
unfoldable pub parse_set : List Bytes → Result SubjectError (List Pattern)
unfolding set_from
parse_set [] = err empty_set
parse_set (r ∷ rs) = set_from (r ∷ rs) []

unfoldable pub strings : List Pattern → List Bytes
strings [] = []
strings (p ∷ ps) = p.raw ∷ strings ps
