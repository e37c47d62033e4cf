-- ===== src/Auth/Principal.antt =====
-- internal/auth/principal.go: what a principal is allowed.
use messq.Common.{
  List, [], ◌∷◌, ◌++◌, Bool, true, false, ◌&&◌, ◌||◌, Option, none, some, Bytes, codes,
  if◌then◌else◌,
}
use messq.Auth.Pattern.{Pattern, match}
use messq.Auth.Role.{Role, RoleSet, has, meets, all_roles}

pub data Kind : Type 0 where
  kind_anonymous kind_token kind_local : Kind

-- The three ids of the peer of a socket, in their decimal forms.
pub record Peer : Type 0 where
  pub uid : Bytes
  pub gid : Bytes
  pub pid : Bytes

pub record Grant : Type 0 where
  pub roles : RoleSet
  pub pattern : Pattern

pub record Principal : Type 0 where
  pub id : Bytes
  pub kind : Kind
  pub grants : List Grant
  pub peer : Option Peer

unfoldable pub new_principal : Bytes → Kind → List Grant → Principal
new_principal id kind grants = record { id = id; kind = kind; grants = grants; peer = none }

unfoldable pub new_local_principal : Bytes → Option Peer → Principal
unfolding all_roles
new_local_principal id peer = record {
  id = id;
  kind = kind_local;
  peer = peer;
  grants =
      record {
        roles = all_roles;
        pattern = record { raw = codes "*"; star = true; prefix = false; lit = [] };
      }
      ∷ [];
}

-- A loop over the grants that returns at the first that passes.
abbrev pub any_grant : (Grant → Bool) → List Grant → Bool
any_grant test [] = false
any_grant test (g ∷ gs) = test g || any_grant test gs

unfoldable pub allows : Principal → Role → Bytes → Bool
unfolding match
allows p r stream = any_grant (λ g. has g.roles r && match g.pattern stream) p.grants

unfoldable pub allows_any : Principal → RoleSet → Bytes → Bool
unfolding match meets
allows_any p rs stream = any_grant (λ g. meets g.roles rs && match g.pattern stream) p.grants

unfoldable pub allows_global : Principal → Role → Bool
allows_global p r = any_grant (λ g. has g.roles r && g.pattern.star) p.grants

unfoldable pub filter_streams : Principal → RoleSet → List Bytes → List Bytes
unfolding allows_any
filter_streams p rs [] = []
filter_streams p rs (n ∷ names) =
    let rest = filter_streams p rs names in if allows_any p rs n then n ∷ rest else rest

abbrev peer_actor : Option Peer → Bytes
peer_actor none = codes "uid:unknown"
peer_actor (some peer) = codes "uid:" ++ peer.uid

unfoldable pub actor : Principal → Bytes
actor p = elim p.kind [
  | kind_token ↦ codes "tok:" ++ p.id
  | kind_local ↦ peer_actor p.peer
  | kind_anonymous ↦ codes "anonymous"
]
