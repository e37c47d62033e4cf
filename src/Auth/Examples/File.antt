-- ===== src/Auth/Examples/File.antt =====
-- A token file (internal/auth/file.go) of two tokens. The digest of these credentials is the credential
-- and eight zeros; a field ends at a space.
use messq.Common.{
  ℕ, ◌≡◌, refl, List, [], ◌∷◌, ◌++◌, ◌+◌, ◌-◌, ◌*◌, some, Bytes, codes, leb, ◌==◌, ok, Lacks, arith,
  if◌then◌else◌, true,
}
use messq.Auth.Registry.{Token, principal_of, valid_secret, verify, credential_prefix}
use messq.Auth.TokenFile.{parse}
use messq.Auth.Admitted.{parse-verify}
use messq.Auth.Examples.{orders, reader}

abbrev cons_word : ℕ → List Bytes → List Bytes
cons_word c [] = (c ∷ []) ∷ []
cons_word c (w ∷ ws) = (c ∷ w) ∷ ws

abbrev words : Bytes → List Bytes
words [] = []
words (c ∷ s) = let rest = words s in if c == b' ' then [] ∷ rest else cons_word c rest

abbrev nibble : ℕ → ℕ
nibble c = if leb b'a' c then c - 87 else c - 48

abbrev hex_pairs : Bytes → Bytes
hex_pairs (a ∷ b ∷ s) = (nibble a * 16 + nibble b) ∷ hex_pairs s
hex_pairs _ = []

abbrev digest : Bytes → Bytes
digest b = b ++ (0 ∷ 0 ∷ 0 ∷ 0 ∷ 0 ∷ 0 ∷ 0 ∷ 0 ∷ [])

abbrev secret : Bytes
secret = codes "0123456789abcdef"

abbrev credential : Bytes
credential = credential_prefix ++ (codes "ci" ++ (b'_' ∷ secret))

abbrev ci : Token
ci = record {
  id = codes "ci";
  hash = digest (codes "msq1_ci_0123456789abcdef");
  roles = reader;
  patterns = orders ∷ [];
}

abbrev other : Token
other = record {
  id = codes "bot";
  hash = hex_pairs (codes "0000000000000000000000000000000000000000000000000000000000000001");
  roles = reader;
  patterns = orders ∷ [];
}

abbrev lines : List Bytes
lines =
    codes "# tokens"
    ∷ codes "ci 6d7371315f63695f303132333435363738396162636465660000000000000000 consume orders*"
    ∷ codes ""
    ∷ codes "bot 0000000000000000000000000000000000000000000000000000000000000001 consume orders*"
    ∷ []

lines_parsed : parse (λ s. s) words (λ s. some (hex_pairs s)) lines ≡ ok (ci ∷ other ∷ [])
unfolding parse
lines_parsed = refl

ci_plain : Lacks b'_' (codes "ci")
ci_plain = ((λ h. omega arith), ((λ h. omega arith), tt))

secret_good : valid_secret secret ≡ true
unfolding valid_secret
secret_good = refl

digested : digest credential ≡ ci.hash
unfolding credential_prefix
digested = refl

parse-verify_example : verify digest (ci ∷ other ∷ []) credential ≡ ok (principal_of ci)
parse-verify_example =
    parse-verify (λ s. s) words (λ s. some (hex_pairs s)) digest lines [] (other ∷ []) ci secret
      lines_parsed ci_plain secret_good digested
