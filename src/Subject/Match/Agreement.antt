-- ===== src/Subject/Match/Agreement.antt =====
-- The compiled matcher agrees with the naive matcher of the reference model.
use messq.Common.{
  ◌≢◌, ap, subst, ℕ, zero, suc, ◌<◌, ◌≡◌, refl, sym, ◌∙◌, List, [], ◌∷◌, Bool, true, false, Option,
  none, some, Bytes, bytes_eq, bytes_eq_iff, cut, cut-some, length, length-append, ok, arith,
}
use messq.Model
use messq.Model.{split, subject_token_ok, subject_tail_ok, walk, walk_token, walk_gt}
use messq.Subject.Grammar.{
  Token, literal, star, gt, dot, star_text, gt_text, Pattern, parse_pattern, compiled,
}
use messq.Subject.Grammar.Tokens.{
  AreTokensOf, parts_after, split-cut, parse_sound, parse_pattern-eq-compiled,
}
use messq.Subject.Match.{
  valid_segment, tail_round, tail_rounds, valid_tail, go_on, match_tokens, match_all, match,
}

token_ok : (s : Bytes) → subject_token_ok s ≡ valid_segment s
unfolding subject_token_ok valid_segment
token_ok s = refl

-- The rest after a cut is shorter.
cut_shorter : (s : Bytes) {rest : Bytes} → (cut dot s).1 ≡ some rest → length rest < length s
cut_shorter s {rest} h =
    omega (arith, ap length (cut-some dot s h), length-append {0} (cut dot s).0 (dot ∷ rest))

tail_round_lem :
    (next : Bytes → Bool) (seg : Bytes) (after : Option Bytes)
    → ((rest : Bytes) → after ≡ some rest → next rest ≡ subject_tail_ok (split dot rest))
    → tail_round next (seg, after) ≡ subject_tail_ok (seg ∷ parts_after after)
unfolding tail_round subject_tail_ok subject_token_ok valid_segment
tail_round_lem next seg none ih = ground arith
tail_round_lem next seg (some rest) ih = rw (ih rest refl) (ground arith)

tail_rounds_lem :
    (f : ℕ) (s : Bytes) → length s < f → tail_rounds f s ≡ subject_tail_ok (split dot s)
unfolding tail_rounds
tail_rounds_lem zero s h = absurd (omega arith)
tail_rounds_lem (suc f) s h = rw (split-cut s) (
    tail_round_lem (tail_rounds f) (cut dot s).0 (cut dot s).1
      λ rest e. tail_rounds_lem f rest (omega (arith, cut_shorter s {rest = rest} e)))

valid_tail_lem : (s : Bytes) → valid_tail s ≡ subject_tail_ok (split dot s)
unfolding valid_tail
valid_tail_lem s = tail_rounds_lem (suc (length s)) s (omega arith)

-- The subject's parts that the walk has still to read.
abbrev remaining : Bytes → Bool → List Bytes
remaining rest true = []
remaining rest false = split dot rest

bytes_eq_comm : (s t : Bytes) → bytes_eq s t ≡ bytes_eq t s
bytes_eq_comm s t = ground (arith, bytes_eq_iff s t, bytes_eq_iff t s)

module _ (ts : List Token) (segs : List Bytes) where
  -- The claim for the tokens behind the first.
  abbrev Follows : Type 0
  Follows =
      (rest : Bytes) (exhausted : Bool)
      → (exhausted ≡ true → rest ≡ [])
      → match_tokens ts rest exhausted ≡ walk segs (remaining rest exhausted)

  go_on_lem :
      Follows
      → (after : Option Bytes) → go_on (match_tokens ts) after ≡ walk segs (parts_after after)
  go_on_lem ih none = ih [] true (λ _. refl)
  go_on_lem ih (some rest) = ih rest false (λ e. cc)

  star-Follows :
      Follows
      → (rest : Bytes) (exhausted : Bool)
      → match_tokens (star ∷ ts) rest exhausted ≡ walk (star_text ∷ segs) (remaining rest exhausted)
  unfolding match_tokens walk walk_token subject_token_ok valid_segment
  star-Follows ih rest true = refl
  star-Follows ih rest false = rw (split-cut rest, go_on_lem ih (cut dot rest).1) (ground arith)

  literal-Follows :
      (lit : Bytes)
      → lit ≢ star_text
      → lit ≢ gt_text
      → Follows
      → (rest : Bytes) (exhausted : Bool)
      → match_tokens (literal lit ∷ ts) rest exhausted
        ≡ walk (lit ∷ segs) (remaining rest exhausted)
  unfolding match_tokens walk walk_token subject_token_ok valid_segment
  literal-Follows lit no_star no_gt ih rest true = ground (arith, bytes_eq_iff lit gt_text)
  literal-Follows lit no_star no_gt ih rest false =
      rw (split-cut rest, go_on_lem ih (cut dot rest).1)
        (ground (
          arith,
          bytes_eq_iff lit star_text,
          bytes_eq_iff lit gt_text,
          bytes_eq_comm lit (cut dot rest).0,
        ))

  gt-Follows :
      (rest : Bytes) (exhausted : Bool)
      → (exhausted ≡ true → rest ≡ [])
      → match_tokens (gt ∷ ts) rest exhausted ≡ walk (gt_text ∷ segs) (remaining rest exhausted)
  unfolding match_tokens walk walk_gt valid_tail cut
  gt-Follows rest true h = rw (h refl) refl
  gt-Follows rest false h = rw (valid_tail_lem rest, split-cut rest)

walk-done : (rest : Bytes) (exhausted : Bool) → exhausted ≡ walk [] (remaining rest exhausted)
unfolding walk
walk-done rest true = refl
walk-done rest false = rw (split-cut rest)

Follows-tokens : (ts : List Token) (segs : List Bytes) → AreTokensOf segs ts → Follows ts segs
unfolding match_tokens
Follows-tokens [] [] h = λ rest exhausted _. walk-done rest exhausted
Follows-tokens [] (seg ∷ segs) h = elim h [ ]
Follows-tokens (t ∷ ts) [] h = elim h [ ]
Follows-tokens (gt ∷ ts) (seg ∷ segs) (here, _) = rw here (gt-Follows ts segs)
Follows-tokens (star ∷ ts) (seg ∷ segs) (here, there) =
    rw here λ rest exhausted _. star-Follows ts segs (Follows-tokens ts segs there) rest exhausted
Follows-tokens (literal lit ∷ ts) (seg ∷ segs) ((here, _, no_star, no_gt), there) =
    rw (← here) λ rest exhausted _.
      literal-Follows ts segs lit (λ e. no_star (sym here ∙ e)) (λ e. no_gt (sym here ∙ e))
        (Follows-tokens ts segs there) rest exhausted

-- A text has a part, so its tokens are no zero Pattern.
pub match_all_lem :
    (ts : List Token) (text s : Bytes)
    → AreTokensOf (split dot text) ts
    → match_all ts s ≡ match_tokens ts s false
unfolding match_all
match_all_lem [] text s h = elim (subst (λ segs. AreTokensOf segs []) (split-cut text) h) [ ]
match_all_lem (t ∷ ts) text s h = refl

-- The compiled matcher answers as the naive one does, for every pattern that parses and every text.
pub match-eq-model :
    (text s : Bytes) {p : Pattern} → parse_pattern text ≡ ok p → match p s ≡ Model.match text s
unfolding match Model.match compiled
match-eq-model text s {p} h =
    let (ts, parsed, e) = parse_pattern-eq-compiled text h in
    let sound = (parse_sound text true ts parsed).0 in
    rw e
      (match_all_lem ts text s sound ∙ Follows-tokens ts (split dot text) sound s false (λ e. cc))
