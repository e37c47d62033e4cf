-- ===== src/Auth/Verified/Naming.antt =====
-- Registry.Verify (internal/auth/registry.go): the token that an id names, and the principal of a token.
use messq.Common.{
  ◌≡◌, refl, ap, ap₂, map, All, ◌∙◌, subst, ◌≢◌, inl, inr, List, [], ◌∷◌, ◌++◌, Option, none, some,
  Bytes, bytes_eq, bytes_eq_iff, Bool-cases, Option-cases,
}
use messq.Auth.Pattern.{Pattern}
use messq.Auth.Role.{RoleSet}
use messq.Auth.Principal.{Principal, Grant, kind_token}
use messq.Auth.Registry.{Token, principal_of, find_token}

some-inj : {a b : Token} → ◌≡◌ {A = Option Token} (some a) (some b) → a ≡ b
some-inj h = cc

-- The principal that a token stands for: its own id, of a token, without a peer, and with a grant of the
-- token's roles for each of its patterns.
abbrev pub Granted : RoleSet → List Pattern → List Grant → Type 0
Granted roles [] [] = Unit
Granted roles [] (g ∷ gs) = ⊥
Granted roles (p ∷ ps) [] = ⊥
Granted roles (p ∷ ps) (g ∷ gs) = (g.roles ≡ roles) × (g.pattern ≡ p) × Granted roles ps gs

pub record StandsFor (t : Token) (p : Principal) : Type 0 where
  pub same_id : p.id ≡ t.id
  pub of_token : p.kind ≡ kind_token
  pub no_peer : p.peer ≡ none
  pub granted : Granted t.roles t.patterns p.grants

map-Granted :
    (roles : RoleSet) (ps : List Pattern)
    → Granted roles ps (map (λ p. record { roles = roles; pattern = p }) ps)
map-Granted roles [] = tt
map-Granted roles (p ∷ ps) = (refl, refl, map-Granted roles ps)

Granted-map :
    (roles : RoleSet) (ps : List Pattern) (gs : List Grant)
    → Granted roles ps gs
    → gs ≡ map (λ p. record { roles = roles; pattern = p }) ps
Granted-map roles [] [] h = refl
Granted-map roles [] (g ∷ gs) h = absurd h
Granted-map roles (p ∷ ps) [] h = absurd h
Granted-map roles (p ∷ ps) (g ∷ gs) (r, at, h) =
    ap₂ (λ x xs. x ∷ xs) (ap₂ (λ x y. record { roles = x; pattern = y }) r at)
      (Granted-map roles ps gs h)

pub principal_of-StandsFor : (t : Token) → StandsFor t (principal_of t)
unfolding principal_of
principal_of-StandsFor t = record {
  same_id = refl;
  of_token = refl;
  no_peer = refl;
  granted = map-Granted t.roles t.patterns;
}

pub StandsFor-eq : (t : Token) (p : Principal) → StandsFor t p → p ≡ principal_of t
unfolding principal_of
StandsFor-eq t p s =
    let grants = Granted-map t.roles t.patterns p.grants s.granted in
    ap (λ i. record p { id = i }) s.same_id
    ∙ ap (λ k. record p { id = t.id; kind = k }) s.of_token
    ∙ ap (λ x. record p { id = t.id; kind = kind_token; peer = x }) s.no_peer
    ∙ ap (λ gs. record { id = t.id; kind = kind_token; peer = none; grants = gs }) grants

-- The token is in the list under that id, and none after it is.
pub record IsNamed (id : Bytes) (tokens : List Token) (t : Token) : Type 0 where
  pub before : List Token
  pub after : List Token
  pub there : tokens ≡ before ++ (t ∷ after)
  pub same_id : t.id ≡ id
  pub last : All (λ (u : Token). u.id ≢ id) after

absent-none :
    (id : Bytes) (ts : List Token) → All (λ (u : Token). u.id ≢ id) ts → find_token id ts ≡ none
unfolding find_token
absent-none id [] h = refl
absent-none id (u ∷ ts) (differs, h) = elim (Bool-cases (bytes_eq u.id id)) [
  | inl same ↦ absurd (differs ((bytes_eq_iff u.id id).0 same))
  | inr other ↦ rw (absent-none id ts h, other) refl
]

none-absent :
    (id : Bytes) (ts : List Token) → find_token id ts ≡ none → All (λ (u : Token). u.id ≢ id) ts
unfolding find_token
none-absent id [] h = tt
none-absent id (u ∷ ts) h = elim (Option-cases (find_token id ts)) [
  | inl none_later ↦ elim (Bool-cases (bytes_eq u.id id)) [
    | inl same ↦ let h = rw (none_later, same) at h in absurd (cc)
    | inr other ↦ (
      λ same. let hit = (bytes_eq_iff u.id id).1 same in absurd (cc),
      none-absent id ts none_later,
    )
  ]
  | inr (v, later) ↦ let h = rw later at h in absurd (cc)
]

pub IsNamed-find :
    (id : Bytes) (before after : List Token) (t : Token)
    → t.id ≡ id
    → All (λ (u : Token). u.id ≢ id) after
    → find_token id (before ++ (t ∷ after)) ≡ some t
unfolding find_token
IsNamed-find id [] after t same last =
    rw (absent-none id after last, (bytes_eq_iff t.id id).1 same) refl
IsNamed-find id (b ∷ before) after t same last = rw (IsNamed-find id before after t same last) refl

pub find-IsNamed :
    (id : Bytes) (ts : List Token) {t : Token} → find_token id ts ≡ some t → IsNamed id ts t
unfolding find_token
find-IsNamed id [] h = cc
find-IsNamed id (x ∷ ts) {t} h = elim (Option-cases (find_token id ts)) [
  | inl none_later ↦ elim (Bool-cases (bytes_eq x.id id)) [
    | inl same ↦
        let h = rw (none_later, same) at h in
        subst (IsNamed id (x ∷ ts)) (some-inj h) (record {
          before = [];
          after = ts;
          there = refl;
          same_id = (bytes_eq_iff x.id id).0 same;
          last = none-absent id ts none_later;
        })
    | inr differs ↦ let h = rw (none_later, differs) at h in absurd (cc)
  ]
  | inr (u, later) ↦
      let n = find-IsNamed id ts (later ∙ (rw later at h)) in
      record {
        before = x ∷ n.before;
        after = n.after;
        there = ap (λ l. x ∷ l) n.there;
        same_id = n.same_id;
        last = n.last;
      }
]
