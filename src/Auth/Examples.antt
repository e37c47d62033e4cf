-- ===== src/Auth/Examples.antt =====
-- Roles, patterns and credentials (internal/auth) at concrete values. The hash of these tokens is the
-- credential itself.
use messq.Common.{◌≡◌, ◌≢◌, ◌↔◌, refl, List, [], ◌∷◌, ◌++◌, true, false, Bytes, codes, ok}
use messq.Auth.Pattern.{Pattern, parse_pattern, match}
use messq.Auth.Role.{Role, RoleSet, has, no_roles, parse_role_set, string}
use messq.Auth.RoleText.{parse_role_set-string}
use messq.Auth.Globs.{Globs, match-Globs}
use messq.Auth.Principal.{Principal, allows, allows_any}
use messq.Auth.Grants.{allows_any_iff}
use messq.Auth.Registry.{Token, principal_of, verify}
use messq.Auth.Verified.{IsVerified, verify_iff, underscore_id-unverified}
mod File

abbrev pub orders : Pattern
orders = record { raw = codes "orders*"; star = false; prefix = true; lit = codes "orders" }

orders_parsed : parse_pattern (codes "orders*") ≡ ok orders
unfolding parse_pattern
orders_parsed = refl

match-Globs_example :
    (match orders (codes "orders_eu") ≡ true) ↔ Globs (codes "orders*") (codes "orders_eu")
match-Globs_example = match-Globs (codes "orders*") (codes "orders_eu") orders orders_parsed

abbrev pub reader : RoleSet
reader = record { publish = false; consume = true; admin = false }

reader_roles : reader ≢ no_roles
reader_roles h = cc

abbrev credential : Bytes
credential = codes "msq1_ci_0123456789abcdef"

-- Its credential is msq1_ci_bot_0123456789abcdef.
abbrev tokens : List Token
tokens =
    record { id = codes "ci"; hash = credential; roles = reader; patterns = orders ∷ [] }
    ∷ record {
      id = codes "ci_bot";
      hash = codes "msq1_ci_bot_0123456789abcdef";
      roles = reader;
      patterns = orders ∷ [];
    }
    ∷ []

abbrev ci : Principal
ci =
    principal_of
      (record { id = codes "ci"; hash = credential; roles = reader; patterns = orders ∷ [] })

ci_verified : verify (λ b. b) tokens credential ≡ ok ci
unfolding verify
ci_verified = refl

ci_bot_refused :
    (p : Principal) → verify (λ b. b) tokens (codes "msq1_ci_bot_0123456789abcdef") ≢ ok p
unfolding verify
ci_bot_refused p h = cc

verify_iff_example :
    (verify (λ b. b) tokens credential ≡ ok ci) ↔ IsVerified (λ b. b) tokens credential ci
verify_iff_example = verify_iff (λ b. b) tokens credential ci

underscore_id-unverified_example : ci.id ≢ codes "ci" ++ codes "_bot"
underscore_id-unverified_example =
    underscore_id-unverified (λ b. b) tokens credential (codes "ci") (codes "bot") ci ci_verified
