-- ===== src/Auth/Verified.antt =====
-- Registry.Verify (internal/auth/registry.go): what a verified credential is.
pub mod Naming
use messq.Common.{
  ◌≡◌, refl, sym, ap, ap₂, map, All, ◌∙◌, subst, ◌↔◌, ◌≢◌, inl, inr, List, [], ◌∷◌, ◌++◌, drop,
  length, true, not, Option, none, some, Bytes, bytes_eq, bytes_eq_iff, bytes_eq_refl, cut,
  cut-some, cut-append, has_prefix, Lacks, All-drop_prefix, ok, ok-inj, Bool-cases, Option-cases,
  arith, if◌then◌else◌,
}
use messq.Auth.Pattern.{Pattern}
use messq.Auth.Role.{RoleSet}
use messq.Auth.Principal.{Principal, Grant, kind_token, new_principal}
use messq.Auth.Globs.{has_prefix-some, has_prefix-append, cut-before-Lacks}
use messq.Auth.Verified.Naming.{
  StandsFor, principal_of-StandsFor, StandsFor-eq, IsNamed, IsNamed-find, find-IsNamed,
}
use messq.Auth.Registry.{
  Token, principal_of, valid_token_id, valid_secret, credential_prefix, shaped, split_credential,
  find_token, decoy_digest, checked, looked_up, verify,
}

-- The credential is the prefix, an id, an underscore and a secret.
pub record IsCredential (cred id secret : Bytes) : Type 0 where
  pub text : cred ≡ credential_prefix ++ (id ++ (b'_' ∷ secret))
  pub plain : Lacks b'_' id
  pub good_id : valid_token_id id ≡ true
  pub good_secret : valid_secret secret ≡ true

some-inj {ℓ} : {A : Type ℓ} {a b : A} → ◌≡◌ {A = Option A} (some a) (some b) → a ≡ b
some-inj h = cc

shaped-some :
    (at : Bytes × Option Bytes) {id : Bytes}
    → shaped at ≡ some id
    → (secret : Bytes) × (at.1 ≡ some secret)
      × (at.0 ≡ id)
      × (valid_token_id id ≡ true)
      × (valid_secret secret ≡ true)
shaped-some (i, none) h = cc
shaped-some (i, some secret) {id} h = (secret, refl, ground arith, ground arith, ground arith)

shaped-good :
    (id secret : Bytes)
    → valid_token_id id ≡ true
    → valid_secret secret ≡ true
    → shaped (id, some secret) ≡ some id
shaped-good id secret good_id good_secret = rw (good_id, good_secret) refl

find_token-id : (id : Bytes) (ts : List Token) {t : Token} → find_token id ts ≡ some t → t.id ≡ id
unfolding find_token
find_token-id id [] h = cc
find_token-id id (x ∷ ts) {t} h = elim (Option-cases (find_token id ts)) [
  | inl none_later ↦ elim (Bool-cases (bytes_eq x.id id)) [
    | inl same ↦
        let h = rw (none_later, same) at h in
        subst (λ u. u.id ≡ id) (some-inj h) ((bytes_eq_iff x.id id).0 same)
    | inr differs ↦ let h = rw (none_later, differs) at h in absurd (cc)
  ]
  | inr (u, later) ↦ find_token-id id ts (later ∙ (rw later at h))
]

drop-append : (p rest : Bytes) → drop (length p) (p ++ rest) ≡ rest
drop-append [] rest = refl
drop-append (c ∷ p) rest = drop-append p rest

-- A credential is split where it has the right shape, at the first underscore after the prefix.
pub split_credential-some :
    (cred : Bytes) {id : Bytes}
    → split_credential cred ≡ some id
    → (secret : Bytes) × IsCredential cred id secret
unfolding split_credential
split_credential-some cred {id} h = elim (Bool-cases (has_prefix cred credential_prefix)) [
  | inl prefixed ↦
      let (rest, same) = has_prefix-some cred credential_prefix prefixed in
      let at = cut b'_' rest in
      let dropped : drop (length credential_prefix) cred ≡ rest =
        ap (drop (length credential_prefix)) same ∙ drop-append credential_prefix rest in
      let h : shaped at ≡ some id =
        ap (λ r. shaped (cut b'_' r)) (sym dropped) ∙ (rw prefixed at h) in
      let (secret, after, before, good_id, good_secret) = shaped-some at h in
      (
        secret,
        record {
          text =
              same
              ∙ ap (λ r. credential_prefix ++ r)
                  (cut-some b'_' rest after ∙ ap (λ l. l ++ (b'_' ∷ secret)) before);
          plain = subst (Lacks b'_') before (cut-before-Lacks b'_' rest);
          good_id = good_id;
          good_secret = good_secret;
        },
      )
  | inr other ↦ let no_id = rw other at h in absurd (cc)
]

pub some-split_credential :
    (cred id secret : Bytes) → IsCredential cred id secret → split_credential cred ≡ some id
unfolding split_credential
some-split_credential cred id secret c =
    let rest = id ++ (b'_' ∷ secret) in
    let prefixed : has_prefix cred credential_prefix ≡ true =
      ap (λ t. has_prefix t credential_prefix) c.text ∙ has_prefix-append credential_prefix rest in
    let dropped : drop (length credential_prefix) cred ≡ rest =
      ap (drop (length credential_prefix)) c.text ∙ drop-append credential_prefix rest in
    ap (λ b. if not b then none else shaped (cut b'_' (drop (length credential_prefix) cred)))
      prefixed
    ∙ ap (λ r. shaped (cut b'_' r)) dropped
    ∙ ap shaped (cut-append b'_' id secret c.plain)
    ∙ shaped-good id secret c.good_id c.good_secret

module _ (sha256 : Bytes → Bytes) where
  -- The same by the registry's own lookup.
  pub record IsLookedUp (tokens : List Token) (cred : Bytes) (p : Principal) : Type 0 where
    pub id : Bytes
    pub secret : Bytes
    pub token : Token
    pub shape : IsCredential cred id secret
    pub found : find_token id tokens ≡ some token
    pub hashed : sha256 cred ≡ token.hash
    pub answer : p ≡ principal_of token

  checked-ok :
      (cred : Bytes) (found : Option Token) {p : Principal}
      → checked sha256 cred found ≡ ok p
      → (t : Token) × (found ≡ some t) × (sha256 cred ≡ t.hash) × (p ≡ principal_of t)
  checked-ok cred none h = elim (Bool-cases (bytes_eq (sha256 cred) (decoy_digest sha256))) [
    | inl same ↦ let h = rw same at h in absurd (cc)
    | inr differs ↦ let h = rw differs at h in absurd (cc)
  ]
  checked-ok cred (some t) h = elim (Bool-cases (bytes_eq (sha256 cred) t.hash)) [
    | inl same ↦ (t, refl, (bytes_eq_iff (sha256 cred) t.hash).0 same, sym (ok-inj (rw same at h)))
    | inr differs ↦ let h = rw differs at h in absurd (cc)
  ]

  looked_up-ok :
      (tokens : List Token) (cred : Bytes) (split : Option Bytes) {p : Principal}
      → split_credential cred ≡ split
      → looked_up sha256 tokens cred split ≡ ok p
      → IsLookedUp tokens cred p
  looked_up-ok tokens cred none e h = cc
  looked_up-ok tokens cred (some id) e h =
      let (secret, shape) = split_credential-some cred e in
      let (t, found, hashed, answer) = checked-ok cred (find_token id tokens) h in
      record {
        id = id;
        secret = secret;
        token = t;
        shape = shape;
        found = found;
        hashed = hashed;
        answer = answer;
      }

  pub verify-IsLookedUp :
      (tokens : List Token) (cred : Bytes) (p : Principal)
      → (verify sha256 tokens cred ≡ ok p) ↔ IsLookedUp tokens cred p
  unfolding verify
  verify-IsLookedUp tokens cred p = (
    looked_up-ok tokens cred (split_credential cred) refl,
    λ v.
        rw
          (
            some-split_credential cred v.id v.secret v.shape,
            v.found,
            v.hashed,
            bytes_eq_refl v.token.hash,
            v.answer,
          )
          refl,
  )

  -- The credential names a token of the registry, the last one of its id, and is the one that the
  -- token's hash was taken of; the principal is that token's.
  pub record IsVerified (tokens : List Token) (cred : Bytes) (p : Principal) : Type 0 where
    pub id : Bytes
    pub secret : Bytes
    pub token : Token
    pub shape : IsCredential cred id secret
    pub named : IsNamed id tokens token
    pub hashed : sha256 cred ≡ token.hash
    pub answer : StandsFor token p

  -- A credential is answered with a principal exactly when it has the right shape, its id, which has no
  -- underscore, is that of a token of the registry, and it hashes to what the last such token holds. The
  -- principal then has the token's id and kind, no peer, and for each pattern of the token a grant of
  -- the token's roles.
  pub verify_iff :
      (tokens : List Token) (cred : Bytes) (p : Principal)
      → (verify sha256 tokens cred ≡ ok p) ↔ IsVerified tokens cred p
  verify_iff tokens cred p = (
    λ h.
        let v = (verify-IsLookedUp tokens cred p).0 h in
        record {
          id = v.id;
          secret = v.secret;
          token = v.token;
          shape = v.shape;
          named = find-IsNamed v.id tokens v.found;
          hashed = v.hashed;
          answer = subst (StandsFor v.token) (sym v.answer) (principal_of-StandsFor v.token);
        },
    λ v.
        let n = v.named in
        (verify-IsLookedUp tokens cred p).1 (record {
          id = v.id;
          secret = v.secret;
          token = v.token;
          shape = v.shape;
          found =
              ap (find_token v.id) n.there
              ∙ IsNamed-find v.id n.before n.after v.token n.same_id n.last;
          hashed = v.hashed;
          answer = StandsFor-eq v.token p v.answer;
        }),
  )

  -- No credential is ever answered with a token whose id has an underscore.
  pub underscore_id-unverified :
      (tokens : List Token) (cred before after : Bytes) (p : Principal)
      → verify sha256 tokens cred ≡ ok p
      → p.id ≢ before ++ (b'_' ∷ after)
  unfolding principal_of
  underscore_id-unverified tokens cred before after p verified underscore =
      let v = (verify-IsLookedUp tokens cred p).0 verified in
      let same : v.id ≡ before ++ (b'_' ∷ after) =
        sym (find_token-id v.id tokens v.found)
        ∙ sym (ap (λ (q : Principal). q.id) v.answer)
        ∙ underscore in
      (All-drop_prefix (λ c. c ≢ b'_') before (b'_' ∷ after)
          (subst (Lacks b'_') same v.shape.plain)).0
        refl
