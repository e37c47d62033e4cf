-- ===== src/Subject/Grammar/Tokens.antt =====
-- What the tokens of an accepted text are: one for each part between two dots.
use messq.Common.{
  ℕ, zero, suc, ◌≤◌, ◌≡◌, ◌≢◌, refl, inl, inr, List, [], ◌∷◌, Bool, true, false, Option, none, some,
  Bytes, bytes_eq_iff, cut, length, Result, ok, arith, ◌==◌, Bool-cases, Result-cases,
}
use messq.Model.{split}
use messq.Subject.Utf8.{valid_string}
use messq.Subject.Grammar.{
  max_subject_bytes, Token, literal, star, gt, dot, star_text, gt_text, classify, parse_segment,
  parse_tokens, parse, Pattern, compiled, parse_pattern, SubjectError, max_tokens,
}

-- The token that stands for a part of the text.
abbrev pub IsTokenOf : Bytes → Token → Type 0
IsTokenOf seg (literal lit) = (lit ≡ seg) × (seg ≢ []) × (seg ≢ star_text) × (seg ≢ gt_text)
IsTokenOf seg star = seg ≡ star_text
IsTokenOf seg gt = seg ≡ gt_text

abbrev pub AreTokensOf : List Bytes → List Token → Type 0
AreTokensOf [] [] = Unit
AreTokensOf (seg ∷ segs) (t ∷ ts) = IsTokenOf seg t × AreTokensOf segs ts
AreTokensOf _ _ = ⊥

-- The parts of a text in terms of its first cut.
abbrev pub parts_after : Option Bytes → List Bytes
parts_after none = []
parts_after (some rest) = split dot rest

pub split-cut : (s : Bytes) → split dot s ≡ (cut dot s).0 ∷ parts_after (cut dot s).1
unfolding split cut
split-cut [] = refl
split-cut (c ∷ s) = elim (Bool-cases (c == dot)) [ inl e ↦ rw e | inr e ↦ rw (e, split-cut s) ]

classify_sound :
    (seg : Bytes) (wildcards last : Bool) {t : Token}
    → classify seg wildcards last ≡ ok t
    → IsTokenOf seg t
unfolding classify
classify_sound seg wildcards last {t} h =
    ground (arith, bytes_eq_iff seg [], bytes_eq_iff seg star_text, bytes_eq_iff seg gt_text)

segment_sound :
    (next : Bytes → Result SubjectError (List Token)) (wildcards : Bool)
    → ((rest : Bytes) (ts : List Token) → next rest ≡ ok ts → AreTokensOf (split dot rest) ts)
    → (seg : Bytes) (after : Option Bytes) (ts : List Token)
    → parse_segment next wildcards (seg, after) ≡ ok ts
    → AreTokensOf (seg ∷ parts_after after) ts
unfolding parse_segment
segment_sound next wildcards sound seg none ts h =
    elim (Result-cases (classify seg wildcards true)) [
      | inl (t, e) ↦ ground (arith, classify_sound seg wildcards true e)
      | inr (x, e) ↦ cc
    ]
segment_sound next wildcards sound seg (some rest) ts h =
    elim (Result-cases (classify seg wildcards false)) [
      | inl (t, e) ↦ elim (Result-cases (next rest)) [
        | inl (us, f) ↦ ground (arith, classify_sound seg wildcards false e, sound rest us f)
        | inr (x, f) ↦ ground arith
      ]
      | inr (x, e) ↦ ground arith
    ]

-- Each token of an accepted text stands for the part of the text between two dots.
pub tokens_sound :
    (room : ℕ) (wildcards : Bool) (rest : Bytes) (ts : List Token)
    → parse_tokens room wildcards rest ≡ ok ts
    → AreTokensOf (split dot rest) ts
unfolding parse_tokens
tokens_sound zero wildcards rest ts h = ground arith
tokens_sound (suc room) wildcards rest ts h = rw (split-cut rest) (
    segment_sound (parse_tokens room wildcards) wildcards (tokens_sound room wildcards)
      (cut dot rest).0 (cut dot rest).1 ts h)

segment_length :
    (room : ℕ) (next : Bytes → Result SubjectError (List Token)) (wildcards : Bool)
    → ((rest : Bytes) (ts : List Token) → next rest ≡ ok ts → length ts ≤ room)
    → (part : Bytes × Option Bytes) (ts : List Token) → parse_segment next wildcards part ≡ ok ts
    → length ts ≤ suc room
unfolding parse_segment
segment_length room next wildcards bound (seg, none) ts h =
    elim (Result-cases (classify seg wildcards true)) [
      | inl (t, e) ↦ ground arith
      | inr (x, e) ↦ ground arith
    ]
segment_length room next wildcards bound (seg, some rest) ts h = elim (Result-cases (next rest)) [
  | inl (us, f) ↦ ground (arith, bound rest us f)
  | inr (x, f) ↦ ground arith
]

tokens_length :
    (room : ℕ) (wildcards : Bool) (rest : Bytes) (ts : List Token)
    → parse_tokens room wildcards rest ≡ ok ts
    → length ts ≤ room
unfolding parse_tokens
tokens_length zero wildcards rest ts h = ground arith
tokens_length (suc room) wildcards rest ts h =
    segment_length room (parse_tokens room wildcards) wildcards (tokens_length room wildcards)
      (cut dot rest) ts h

-- The guards of `parse` that an accepted text has passed.
pub parse_guards :
    (s : Bytes) (wildcards : Bool) {ts : List Token}
    → parse s wildcards ≡ ok ts
    → (s ≢ [])
      × (length s ≤ max_subject_bytes)
      × (valid_string s ≡ true)
      × (parse_tokens max_tokens wildcards s ≡ ok ts)
unfolding parse
parse_guards s wildcards h = ground (arith, bytes_eq_iff s [])

pub parse_sound :
    (s : Bytes) (wildcards : Bool) (ts : List Token)
    → parse s wildcards ≡ ok ts
    → AreTokensOf (split dot s) ts × (length ts ≤ max_tokens)
parse_sound s wildcards ts h =
    let (_, _, _, walked) = parse_guards s wildcards h in
    (tokens_sound max_tokens wildcards s ts walked, tokens_length max_tokens wildcards s ts walked)

-- A pattern is compiled from the tokens of its text.
pub parse_pattern-eq-compiled :
    (s : Bytes) {p : Pattern}
    → parse_pattern s ≡ ok p
    → (ts : List Token) × (parse s true ≡ ok ts) × (p ≡ compiled s ts)
unfolding parse_pattern
parse_pattern-eq-compiled s h = elim (Result-cases (parse s true)) [
  | inl (ts, e) ↦ (ts, e, ground arith)
  | inr (x, e) ↦ absurd (ground arith)
]
