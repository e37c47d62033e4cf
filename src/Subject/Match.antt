-- ===== src/Subject/Match.antt =====
-- internal/subject/subject.go: matching a subject against compiled tokens.
pub mod Agreement
use messq.Common.{
  ℕ, zero, suc, List, [], ◌∷◌, Bool, true, false, not, ◌&&◌, ◌||◌, Option, none, some, Bytes,
  bytes_eq, cut, length,
}
use messq.Subject.Grammar.{Token, literal, star, gt, Pattern, dot, star_text, gt_text}

-- A token of a subject is not empty and is no bare wildcard.
unfoldable pub valid_segment : Bytes → Bool
unfolding bytes_eq
valid_segment seg =
    not (bytes_eq seg []) && not (bytes_eq seg star_text) && not (bytes_eq seg gt_text)

-- One round of the loop of `validTail`.
tail_round : (Bytes → Bool) → Bytes × Option Bytes → Bool
tail_round next (seg, none) = valid_segment seg
tail_round next (seg, some rest) = valid_segment seg && next rest

-- Each round drops a dot at least, so the length of the text bounds the rounds.
tail_rounds : ℕ → Bytes → Bool
unfolding tail_round
tail_rounds zero rest = false
tail_rounds (suc f) rest = tail_round (tail_rounds f) (cut dot rest)

unfoldable pub valid_tail : Bytes → Bool
unfolding tail_rounds
valid_tail rest = tail_rounds (suc (length rest)) rest

-- What the loop of `Match` goes on with after a cut: `rest`, and whether the subject is exhausted.
abbrev go_on : {A : Type 0} → (Bytes → Bool → A) → Option Bytes → A
go_on next none = next [] true
go_on next (some rest) = next rest false

unfoldable pub match_tokens : List Token → Bytes → Bool → Bool
unfolding valid_segment bytes_eq
match_tokens [] rest exhausted = exhausted
match_tokens (gt ∷ ts) rest exhausted = valid_tail rest
match_tokens (star ∷ ts) rest true = false
match_tokens (star ∷ ts) rest false =
    let (seg, after) = cut dot rest in valid_segment seg && go_on (match_tokens ts) after
match_tokens (literal lit ∷ ts) rest true = false
match_tokens (literal lit ∷ ts) rest false =
    let (seg, after) = cut dot rest in
    valid_segment seg && bytes_eq seg lit && go_on (match_tokens ts) after

-- The zero Pattern matches nothing.
unfoldable pub match_all : List Token → Bytes → Bool
unfolding match_tokens
match_all [] s = false
match_all (t ∷ ts) s = match_tokens (t ∷ ts) s false

unfoldable pub match : Pattern → Bytes → Bool
unfolding match_all
match p s = match_all p.tokens s

-- `Set.Match`
unfoldable pub match_any : List Pattern → Bytes → Bool
unfolding match
match_any [] s = false
match_any (p ∷ ps) s = match p s || match_any ps s
