-- ===== src/Auth/Admitted.antt =====
-- Parse (internal/auth/file.go) and Registry.Verify (registry.go): the tokens of a file are told apart,
-- and each lets its credential in.
use messq.Common.{
  ◌≡◌, ◌≢◌, refl, sym, subst, inl, inr, List, [], ◌∷◌, ◌++◌, length, Bool, true, false, not, Option,
  none, some, Bytes, bytes_eq, bytes_eq_iff, bytes_eq_refl, Lacks, All, All-append, leb, ◌==◌, ok,
  >>=-eq-ok, ok-inj, require, Bool-cases, arith,
}
use messq.Errs.{bad_request}
use messq.Auth.Role.{split, parse_role_set}
use messq.Auth.Registry.{
  Token, principal_of, valid_token_id, valid_secret, find_token, verify, credential_prefix,
}
use messq.Auth.Verified.{verify-IsLookedUp}
use messq.Auth.TokenFile.{
  max_token_line_bytes, trim_bom, has_id, has_hash, parse_patterns, decoded, is_comment,
  parse_token, parse_line, parse_lines, parse,
}

abbrev Apart : Token → Token → Type 0
Apart t u = (t.id ≢ u.id) × (t.hash ≢ u.hash)

-- No two tokens share an id or a hash.
abbrev pub Distinct : List Token → Type 0
Distinct [] = Unit
Distinct (t ∷ ts) = All (Apart t) ts × Distinct ts

abbrev pub GoodIds : List Token → Type 0
GoodIds ts = All (λ (t : Token). valid_token_id t.id ≡ true) ts

Distinct-snoc :
    (ts : List Token) (u : Token)
    → Distinct ts
    → All (λ t. Apart t u) ts
    → Distinct (ts ++ (u ∷ []))
Distinct-snoc [] u d apart = (tt, tt)
Distinct-snoc (t ∷ ts) u (here, there) (p, apart) =
    (All-append (Apart t) ts (u ∷ []) here (p, tt), Distinct-snoc ts u there apart)

-- A token that is not refused is apart from those seen.
Apart-All :
    (u : Token) (seen : List Token)
    → has_id u.id seen ≡ false
    → has_hash u.hash seen ≡ false
    → All (λ t. Apart t u) seen
unfolding has_id has_hash
Apart-All u [] h k = tt
Apart-All u (t ∷ seen) h k = (
  (
    λ same. let b = (bytes_eq_iff t.id u.id).1 same in ground arith,
    λ same. let b = (bytes_eq_iff t.hash u.hash).1 same in ground arith,
  ),
  Apart-All u seen (ground arith) (ground arith),
)

require-true : (test : Bool) {u : Unit {0}} → require test bad_request ≡ ok u → test ≡ true
require-true true h = refl
require-true false h = cc

require-false : (test : Bool) {u : Unit {0}} → require (not test) bad_request ≡ ok u → test ≡ false
require-false true h = cc
require-false false h = refl

find_token-absent :
    (id : Bytes) (ts : List Token) → All (λ (u : Token). u.id ≢ id) ts → find_token id ts ≡ none
unfolding find_token
find_token-absent id [] h = refl
find_token-absent id (t ∷ ts) (here, there) = elim (Bool-cases (bytes_eq t.id id)) [
  | inl same ↦ absurd (here ((bytes_eq_iff t.id id).0 same))
  | inr differs ↦ rw (find_token-absent id ts there, differs) refl
]

Apart-ids : (t : Token) (ts : List Token) → All (Apart t) ts → All (λ (u : Token). u.id ≢ t.id) ts
Apart-ids t [] h = tt
Apart-ids t (u ∷ ts) ((p, q), h) = (λ same. p (sym same), Apart-ids t ts h)

find_token-Distinct :
    (before after : List Token) (t : Token)
    → Distinct (before ++ (t ∷ after))
    → find_token t.id (before ++ (t ∷ after)) ≡ some t
unfolding find_token
find_token-Distinct [] after t (here, there) =
    rw (find_token-absent t.id after (Apart-ids t after here), bytes_eq_refl t.id) refl
find_token-Distinct (x ∷ before) after t (here, there) =
    rw (find_token-Distinct before after t there) refl

GoodIds-at :
    (before after : List Token) (t : Token)
    → GoodIds (before ++ (t ∷ after))
    → valid_token_id t.id ≡ true
GoodIds-at [] after t h = h.0
GoodIds-at (x ∷ before) after t h = GoodIds-at before after t h.1

module _ (trim_space : Bytes → Bytes) (fields : Bytes → List Bytes)
    (hex_decode : Bytes → Option Bytes) where
  parse_token-id :
      (parts : List Bytes) {t : Token}
      → parse_token trim_space fields hex_decode parts ≡ ok t
      → valid_token_id t.id ≡ true
  unfolding parse_token
  parse_token-id (id ∷ hash_field ∷ role_names ∷ streams ∷ []) {t} h =
      let (_, good, h) = >>=-eq-ok (require (valid_token_id id) bad_request) _ h in
      let (_, _, h) = >>=-eq-ok (require (length hash_field == 64) bad_request) _ h in
      let (hash, _, h) = >>=-eq-ok (decoded (hex_decode hash_field)) _ h in
      let (roles, _, h) = >>=-eq-ok (parse_role_set role_names) _ h in
      let (patterns, _, h) = >>=-eq-ok (parse_patterns (split streams)) _ h in
      subst (λ (u : Token). valid_token_id u.id ≡ true) (ok-inj h) (require-true _ good)
  parse_token-id _ h = cc

  parse_line-Distinct :
      (seen after : List Token) (line : Bytes)
      → parse_line trim_space fields hex_decode seen line ≡ ok after
      → Distinct seen × GoodIds seen
      → Distinct after × GoodIds after
  unfolding parse_line
  parse_line-Distinct seen after line h (distinct, good) = elim (Bool-cases (is_comment line)) [
    | inl skipped ↦
        subst (λ ts. Distinct ts × GoodIds ts) (ok-inj (rw skipped at h)) (distinct, good)
    | inr read ↦
        let h = rw read at h in
        let (t, parsed, h) =
          >>=-eq-ok (parse_token trim_space fields hex_decode (fields line)) _ h in
        let (_, new_id, h) = >>=-eq-ok (require (not (has_id t.id seen)) bad_request) _ h in
        let (_, new_hash, h) = >>=-eq-ok (require (not (has_hash t.hash seen)) bad_request) _ h in
        subst (λ ts. Distinct ts × GoodIds ts) (ok-inj h)
          (
            Distinct-snoc seen t distinct
                (Apart-All t seen (require-false _ new_id) (require-false _ new_hash)),
            All-append _ seen (t ∷ []) good (parse_token-id (fields line) parsed, tt),
          )
  ]

  parse_lines-Distinct :
      (lines : List Bytes) (seen after : List Token)
      → parse_lines trim_space fields hex_decode seen lines ≡ ok after
      → Distinct seen × GoodIds seen
      → Distinct after × GoodIds after
  unfolding parse_lines
  parse_lines-Distinct [] seen after h apart =
      subst (λ ts. Distinct ts × GoodIds ts) (ok-inj h) apart
  parse_lines-Distinct (line ∷ lines) seen after h apart =
      let (_, _, h) =
        >>=-eq-ok (require (leb (length line) max_token_line_bytes) bad_request) _ h in
      let (seen', read, h) =
        >>=-eq-ok (parse_line trim_space fields hex_decode seen (trim_space line)) _ h in
      parse_lines-Distinct lines seen' after h
        (parse_line-Distinct seen seen' (trim_space line) read apart)

  -- The tokens of a file that is accepted have ids of the right shape, and no two share an id or a hash.
  pub parse-Distinct :
      (lines : List Bytes) (tokens : List Token)
      → parse trim_space fields hex_decode lines ≡ ok tokens
      → Distinct tokens × GoodIds tokens
  unfolding parse
  parse-Distinct [] tokens h = subst (λ ts. Distinct ts × GoodIds ts) (ok-inj h) (tt, tt)
  parse-Distinct (line ∷ lines) tokens h =
      parse_lines-Distinct (trim_bom line ∷ lines) [] tokens h (tt, tt)

  -- Every token of an accepted file whose id has no underscore lets in the credential of its id whose
  -- hash it holds, as the principal of that token and no other.
  pub parse-verify :
      (sha256 : Bytes → Bytes) (lines : List Bytes) (before after : List Token) (t : Token)
      (secret : Bytes)
      → parse trim_space fields hex_decode lines ≡ ok (before ++ (t ∷ after))
      → Lacks b'_' t.id
      → valid_secret secret ≡ true
      → sha256 (credential_prefix ++ (t.id ++ (b'_' ∷ secret))) ≡ t.hash
      → verify sha256 (before ++ (t ∷ after)) (credential_prefix ++ (t.id ++ (b'_' ∷ secret)))
        ≡ ok (principal_of t)
  parse-verify sha256 lines before after t secret parsed plain good_secret hashed =
      let tokens = before ++ (t ∷ after) in
      let (distinct, good) = parse-Distinct lines tokens parsed in
      let cred = credential_prefix ++ (t.id ++ (b'_' ∷ secret)) in
      (verify-IsLookedUp sha256 tokens cred (principal_of t)).1 record {
        id = t.id;
        secret = secret;
        token = t;
        shape = record {
          text = refl;
          plain = plain;
          good_id = GoodIds-at before after t good;
          good_secret = good_secret;
        };
        found = find_token-Distinct before after t distinct;
        hashed = hashed;
        answer = refl;
      }
