-- ===== src/Auth/RoleText.antt =====
-- RoleSet.String and ParseRoleSet (internal/auth/role.go).
use messq.Common.{◌≡◌, ◌≢◌, refl, Bool, true, false, ok}
use messq.Auth.Role.{RoleSet, no_roles, parse_role_set, string}

-- The text of every set that is not empty is read back as that set.
pub parse_role_set-string : (rs : RoleSet) → rs ≢ no_roles → parse_role_set (string rs) ≡ ok rs
unfolding parse_role_set string
parse_role_set-string rs some_role = go rs.publish rs.consume rs.admin some_role
  where
    go :
        (p c a : Bool)
        → record { publish = p; consume = c; admin = a } ≢ no_roles
        → parse_role_set (string (record { publish = p; consume = c; admin = a }))
          ≡ ok (record { publish = p; consume = c; admin = a })
    go true true true h = refl
    go true true false h = refl
    go true false true h = refl
    go true false false h = refl
    go false true true h = refl
    go false true false h = refl
    go false false true h = refl
    go false false false h = absurd (h refl)
