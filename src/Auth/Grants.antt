-- ===== src/Auth/Grants.antt =====
-- Principal (internal/auth/principal.go): how its three questions agree.
use messq.Common.{◌≡◌, ◌↔◌, inl, inr, List, [], ◌∷◌, true, ◌&&◌, Bytes, Bool-cases, arith}
use messq.Auth.Pattern.{match}
use messq.Auth.Role.{Role, role_publish, role_consume, role_admin, RoleSet, has, meets}
use messq.Auth.Principal.{Principal, Grant, any_grant, allows, allows_any, allows_global}

meets-role : (a b : RoleSet) → meets a b ≡ true → (r : Role) × (has a r ≡ true) × (has b r ≡ true)
unfolding meets
meets-role a b h = elim (Bool-cases (a.publish && b.publish)) [
  | inl p ↦ (role_publish, ground arith, ground arith)
  | inr np ↦ elim (Bool-cases (a.consume && b.consume)) [
    | inl c ↦ (role_consume, ground arith, ground arith)
    | inr nc ↦ (role_admin, ground arith, ground arith)
  ]
]

role-meets : (a b : RoleSet) (r : Role) → has a r ≡ true → has b r ≡ true → meets a b ≡ true
unfolding meets
role-meets a b role_publish ha hb = ground arith
role-meets a b role_consume ha hb = ground arith
role-meets a b role_admin ha hb = ground arith

any-some :
    (rs : RoleSet) (s : Bytes) (gs : List Grant)
    → any_grant (λ g. meets g.roles rs && match g.pattern s) gs ≡ true
    → (r : Role) × (has rs r ≡ true)
      × (any_grant (λ g. has g.roles r && match g.pattern s) gs ≡ true)
any-some rs s [] h = cc
any-some rs s (g ∷ gs) h = elim (Bool-cases (meets g.roles rs && match g.pattern s)) [
  | inl here ↦
      let (r, mine, asked) = meets-role g.roles rs (ground arith) in (r, asked, ground arith)
  | inr later ↦ let (r, asked, rest) = any-some rs s gs (ground arith) in (r, asked, ground arith)
]

some-any :
    (rs : RoleSet) (s : Bytes) (r : Role) (gs : List Grant)
    → has rs r ≡ true
    → any_grant (λ g. has g.roles r && match g.pattern s) gs ≡ true
    → any_grant (λ g. meets g.roles rs && match g.pattern s) gs ≡ true
some-any rs s r [] asked h = h
some-any rs s r (g ∷ gs) asked h = ground (arith, some-any rs s r gs asked, role-meets g.roles rs r)

-- A principal is allowed any of a set of roles exactly when it is allowed some role of the set.
pub allows_any_iff :
    (p : Principal) (rs : RoleSet) (s : Bytes)
    → (allows_any p rs s ≡ true) ↔ ((r : Role) × (has rs r ≡ true) × (allows p r s ≡ true))
unfolding allows_any allows
allows_any_iff p rs s = (any-some rs s p.grants, λ (r, asked, h). some-any rs s r p.grants asked h)

star-everywhere :
    (r : Role) (s : Bytes) (gs : List Grant)
    → any_grant (λ g. has g.roles r && g.pattern.star) gs ≡ true
    → any_grant (λ g. has g.roles r && match g.pattern s) gs ≡ true
unfolding match
star-everywhere r s [] h = h
star-everywhere r s (g ∷ gs) h = ground (arith, star-everywhere r s gs)

-- What a principal is allowed globally it is allowed on every stream.
pub allows_global-everywhere :
    (p : Principal) (r : Role) (s : Bytes) → allows_global p r ≡ true → allows p r s ≡ true
unfolding allows_global allows
allows_global-everywhere p r s h = star-everywhere r s p.grants h
