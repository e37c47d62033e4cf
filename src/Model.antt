-- ===== src/Model.antt =====
-- internal/model/match.go: the naive matcher of the reference model. It shares nothing with
-- internal/subject: both sides are split at the dots and walked token by token.
use messq.Common.{
  ℕ, List, [], ◌∷◌, Bool, true, false, not, ◌&&◌, ◌||◌, Bytes, bytes_eq, ◌==◌, if◌then◌else◌,
}

cons_head : ℕ → List Bytes → List Bytes
cons_head c [] = (c ∷ []) ∷ []
cons_head c (t ∷ ts) = (c ∷ t) ∷ ts

-- strings.Split at a separator of one byte.
unfoldable pub split : ℕ → Bytes → List Bytes
unfolding cons_head
split b [] = [] ∷ []
split b (c ∷ s) = let rest = split b s in if c == b then [] ∷ rest else cons_head c rest

unfoldable pub subject_token_ok : Bytes → Bool
unfolding bytes_eq
subject_token_ok tok =
    not (bytes_eq tok []) && not (bytes_eq tok (b'*' ∷ [])) && not (bytes_eq tok (b'>' ∷ []))

unfoldable pub subject_tail_ok : List Bytes → Bool
unfolding subject_token_ok
subject_tail_ok [] = true
subject_tail_ok (tok ∷ rest) = subject_token_ok tok && subject_tail_ok rest

-- One step of the walk at a pattern token other than ">"; `next` walks the rest of the pattern.
unfoldable pub walk_token : Bytes → (List Bytes → Bool) → List Bytes → Bool
unfolding bytes_eq subject_token_ok
walk_token tok next [] = false
walk_token tok next (s ∷ st) =
    subject_token_ok s && (bytes_eq tok (b'*' ∷ []) || bytes_eq tok s) && next st

-- `si < len(st) && subjectTailOk(st[si:])`
unfoldable pub walk_gt : List Bytes → Bool
unfolding subject_tail_ok
walk_gt [] = false
walk_gt (s ∷ st) = subject_tail_ok (s ∷ st)

-- The walk over the pattern's tokens. The second argument is `st[si:]`.
unfoldable pub walk : List Bytes → List Bytes → Bool
unfolding walk_token walk_gt bytes_eq
walk [] [] = true
walk [] (s ∷ st) = false
walk (tok ∷ pt) st =
    let step = walk_token tok (walk pt) st in if bytes_eq tok (b'>' ∷ []) then walk_gt st else step

unfoldable pub match : Bytes → Bytes → Bool
unfolding split walk
match pattern_text s = walk (split b'.' pattern_text) (split b'.' s)
