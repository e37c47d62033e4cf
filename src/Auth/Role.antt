-- ===== src/Auth/Role.antt =====
-- internal/auth/role.go: roles and sets of roles.
use messq.Common.{
  ℕ, List, [], ◌∷◌, ◌++◌, Bool, true, false, ◌&&◌, ◌||◌, not, Bytes, codes, bytes_eq, ◌==◌,
  if◌then◌else◌, Result, ok, err, ◌>>=◌, ◌>>◌, require,
}
use messq.Errs.{Sentinel, bad_request}

pub data Role : Type 0 where
  role_publish role_consume role_admin : Role

-- The three bits of the byte that are ever set.
pub record RoleSet : Type 0 where
  pub publish : Bool
  pub consume : Bool
  pub admin : Bool

abbrev pub no_roles : RoleSet
no_roles = record { publish = false; consume = false; admin = false }

unfoldable pub all_roles : RoleSet
all_roles = record { publish = true; consume = true; admin = true }

abbrev pub has : RoleSet → Role → Bool
has rs role_publish = rs.publish
has rs role_consume = rs.consume
has rs role_admin = rs.admin

-- out |= roleBit(r)
unfoldable pub add_role : RoleSet → Role → RoleSet
add_role rs role_publish = record rs { publish = true }
add_role rs role_consume = record rs { consume = true }
add_role rs role_admin = record rs { admin = true }

-- rs & other != 0
unfoldable pub meets : RoleSet → RoleSet → Bool
meets a b = (a.publish && b.publish) || ((a.consume && b.consume) || (a.admin && b.admin))

unfoldable pub role_name : Role → Bytes
role_name role_publish = codes "publish"
role_name role_consume = codes "consume"
role_name role_admin = codes "admin"

-- strings.Join at a comma
abbrev pub join : List Bytes → Bytes
join [] = []
join (s ∷ []) = s
join (s ∷ t ∷ ts) = s ++ (b',' ∷ join (t ∷ ts))

abbrev cons_if : Bool → Role → List Bytes → List Bytes
cons_if true r parts = role_name r ∷ parts
cons_if false r parts = parts

-- RoleSet.String
unfoldable pub string : RoleSet → Bytes
unfolding role_name
string rs = join (
    cons_if rs.publish role_publish
      (cons_if rs.consume role_consume (cons_if rs.admin role_admin [])))

unfoldable pub parse_role : Bytes → Result Sentinel Role
unfolding bytes_eq
parse_role s =
    if bytes_eq s (codes "publish")
    then ok role_publish
    else if bytes_eq s (codes "consume")
    then ok role_consume
    else if bytes_eq s (codes "admin")
    then ok role_admin
    else err bad_request

abbrev cons_byte : ℕ → List Bytes → List Bytes
cons_byte c [] = (c ∷ []) ∷ []
cons_byte c (s ∷ ss) = (c ∷ s) ∷ ss

-- strings.Split at a comma
unfoldable pub split : Bytes → List Bytes
split [] = [] ∷ []
split (c ∷ s) = let rest = split s in if c == b',' then [] ∷ rest else cons_byte c rest

unfoldable pub add_all : List Bytes → RoleSet → Result Sentinel RoleSet
unfolding parse_role add_role
add_all [] out = ok out
add_all (part ∷ parts) out =
    parse_role part >>= λ r. require (not (has out r)) bad_request >> add_all parts (add_role out r)

unfoldable pub parse_role_set : Bytes → Result Sentinel RoleSet
unfolding bytes_eq split add_all
parse_role_set s = require (not (bytes_eq s [])) bad_request >> add_all (split s) no_roles
