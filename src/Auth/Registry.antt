-- ===== src/Auth/Registry.antt =====
-- internal/auth/registry.go and the tokens of file.go: the verification of a bearer credential.
use messq.Common.{
  ℕ, List, [], ◌∷◌, map, length, Bool, true, false, ◌&&◌, ◌||◌, not, Option, none, some, Bytes,
  codes, bytes_eq, cut, has_prefix, drop, ltb, leb, ◌==◌, if◌then◌else◌, Result, ok, err,
}
use messq.Errs.{Sentinel, unauthorized}
use messq.Auth.Pattern.{Pattern}
use messq.Auth.Role.{RoleSet}
use messq.Auth.Principal.{Principal, new_principal, kind_token, kind_anonymous}

pub record Token : Type 0 where
  pub id : Bytes
  pub hash : Bytes
  pub roles : RoleSet
  pub patterns : List Pattern

unfoldable pub principal_of : Token → Principal
unfolding new_principal
principal_of t =
    new_principal t.id kind_token (map (λ p. record { roles = t.roles; pattern = p }) t.patterns)

abbrev pub in_range : ℕ → ℕ → ℕ → Bool
in_range lo hi c = leb lo c && leb c hi

-- [a-z0-9]
abbrev pub lower_or_digit : ℕ → Bool
lower_or_digit c = in_range b'a' b'z' c || in_range b'0' b'9' c

abbrev pub id_byte : ℕ → Bool
id_byte c = lower_or_digit c || (c == b'.' || (c == b'_' || c == b'-'))

abbrev pub secret_byte : ℕ → Bool
secret_byte c =
    in_range b'A' b'Z' c
    || (lower_or_digit c || (c == b'.' || (c == b'_' || (c == b'~' || c == b'-'))))

abbrev pub all_bytes : (ℕ → Bool) → Bytes → Bool
all_bytes test [] = true
all_bytes test (c ∷ s) = test c && all_bytes test s

abbrev pub leads : Bytes → Bool
leads [] = false
leads (c ∷ s) = lower_or_digit c && all_bytes id_byte s

unfoldable pub valid_token_id : Bytes → Bool
valid_token_id s = not (ltb (length s) 2 || ltb 64 (length s)) && leads s

unfoldable pub valid_secret : Bytes → Bool
valid_secret s = not (ltb (length s) 16 || ltb 512 (length s)) && all_bytes secret_byte s

unfoldable pub credential_prefix : Bytes
credential_prefix = codes "msq1_"

abbrev pub shaped : Bytes × Option Bytes → Option Bytes
shaped (id, none) = none
shaped (id, some secret) =
    if not (valid_token_id id) || not (valid_secret secret) then none else some id

-- The id of a credential of the right shape.
unfoldable pub split_credential : Bytes → Option Bytes
unfolding has_prefix credential_prefix cut valid_token_id valid_secret
split_credential cred =
    if not (has_prefix cred credential_prefix)
    then none
    else shaped (cut b'_' (drop (length credential_prefix) cred))

-- The map that buildTokenSet fills: a later token of an id replaces an earlier one.
unfoldable pub find_token : Bytes → List Token → Option Token
unfolding bytes_eq
find_token id [] = none
find_token id (t ∷ ts) = elim (find_token id ts) [
  | some later ↦ some later
  | none ↦ if bytes_eq t.id id then some t else none
]

-- The principal of the decoy.
abbrev pub zero_principal : Principal
zero_principal = record { id = []; kind = kind_anonymous; grants = []; peer = none }

-- `sha256` is crypto/sha256. An id that is not there is compared with the decoy, in the same time.
module _ (sha256 : Bytes → Bytes) where
  unfoldable pub decoy_digest : Bytes
  decoy_digest = sha256 (codes "messq auth decoy digest")

  abbrev pub checked : Bytes → Option Token → Result Sentinel Principal
  checked cred none =
      if not (bytes_eq (sha256 cred) decoy_digest) || not false
      then err unauthorized
      else ok zero_principal
  checked cred (some t) =
      if not (bytes_eq (sha256 cred) t.hash) || not true
      then err unauthorized
      else ok (principal_of t)

  abbrev pub looked_up : List Token → Bytes → Option Bytes → Result Sentinel Principal
  looked_up tokens cred none = err unauthorized
  looked_up tokens cred (some id) = checked cred (find_token id tokens)

  unfoldable pub verify : List Token → Bytes → Result Sentinel Principal
  unfolding split_credential find_token principal_of bytes_eq decoy_digest
  verify tokens cred = looked_up tokens cred (split_credential cred)
