-- ===== src/Store/Dead/Room.antt =====
-- mergeCopyHeaders (internal/store/dead.go): its loop ends, and what it drops.
use messq.Common.{
  ℕ, zero, suc, ◌≤◌, ◌<◌, ◌>>=◌, ◌≡◌, ◌≢◌, refl, ◌∙◌, ◌⊎◌, inl, inr, [], ◌∷◌, length, Bool, true,
  false, Option, none, some, Bytes, bytes_eq, bytes_eq_iff, leb, Result, ok, err, arith,
  if◌then◌else◌, if_both,
}
use messq.Queue.Dlq.{Headers}
use messq.Store.Dead.Provenance.{
  delete_key, has_key, last_reason_key, published_at_key, lay_over, HeaderError, not_json, no_room,
  out_of_fuel, degrade, degrade_fuel, parsed_headers, user_headers, merge_copy_headers,
}

-- h[k]
abbrev pub get : Bytes → Headers → Option Bytes
get k [] = none
get k ((j, w) ∷ h) = let rest = get k h in if bytes_eq j k then some w else rest

has_key-delete : (k : Bytes) (h : Headers) → has_key k (delete_key k h) ≡ false
unfolding has_key delete_key
has_key-delete k [] = refl
has_key-delete k ((j, w) ∷ h) = ground (arith, has_key-delete k h)

has_key-delete_other :
    (k j : Bytes) (h : Headers) → has_key k h ≡ false → has_key k (delete_key j h) ≡ false
unfolding has_key delete_key
has_key-delete_other k j [] absent = refl
has_key-delete_other k j ((i, w) ∷ h) absent = ground (arith, has_key-delete_other k j h)

get-delete : (k j : Bytes) (h : Headers) → k ≢ j → get k (delete_key j h) ≡ get k h
unfolding delete_key
get-delete k j [] apart = refl
get-delete k j ((i, w) ∷ h) apart =
    ground (arith, bytes_eq_iff i j, bytes_eq_iff i k, get-delete k j h apart)

parsed_headers-err :
    (o : Option Headers) {e : HeaderError} → parsed_headers o ≡ err e → not_json ≡ e
parsed_headers-err none h = cc
parsed_headers-err (some user) h = cc

user_headers-err :
    (unmarshal : Bytes → Option Headers) (hdr : Bytes) {e : HeaderError}
    → user_headers unmarshal hdr ≡ err e
    → not_json ≡ e
user_headers-err unmarshal [] h = cc
user_headers-err unmarshal (c ∷ hdr) h = parsed_headers-err (unmarshal (c ∷ hdr)) h

module _ (marshal : Headers → Bytes) (cap_bytes : ℕ) where
  -- The four ends of a round.
  round :
      (P : Result HeaderError (Bytes × Bool) → Type 0) (fuel : ℕ) (h : Headers) (trimmed : Bool)
      → (leb (length (marshal h)) cap_bytes ≡ true → P (ok (marshal h, trimmed)))
      → (has_key last_reason_key h ≡ true
          → P (degrade marshal cap_bytes fuel (delete_key last_reason_key h) true))
      → (has_key last_reason_key h ≡ false
          → has_key published_at_key h ≡ true
          → P (degrade marshal cap_bytes fuel (delete_key published_at_key h) true))
      → (leb (length (marshal h)) cap_bytes ≡ false
          → has_key last_reason_key h ≡ false
          → has_key published_at_key h ≡ false
          → P (err no_room))
      → P (degrade marshal cap_bytes (suc fuel) h trimmed)
  unfolding degrade
  round P fuel h trimmed fits no_reason no_time none_left =
      if_both P (leb (length (marshal h)) cap_bytes) (ok (marshal h, trimmed)) _ fits (λ too_long.
        if_both P (has_key last_reason_key h)
          (degrade marshal cap_bytes fuel (delete_key last_reason_key h) true) _ no_reason
          (λ gone.
            if_both P (has_key published_at_key h)
              (degrade marshal cap_bytes fuel (delete_key published_at_key h) true) (err no_room)
              (no_time gone) (none_left too_long gone)))

  ends_none :
      (h : Headers) (trimmed : Bool)
      → has_key last_reason_key h ≡ false
      → has_key published_at_key h ≡ false
      → degrade marshal cap_bytes 1 h trimmed ≢ err out_of_fuel
  ends_none h trimmed no_reason no_time =
      round (λ r. r ≢ err out_of_fuel) 0 h trimmed (λ _ e. cc) (λ there. absurd (cc))
        (λ _ there. absurd (cc)) (λ _ _ _ e. cc)

  ends_time :
      (h : Headers) (trimmed : Bool)
      → has_key last_reason_key h ≡ false
      → degrade marshal cap_bytes 2 h trimmed ≢ err out_of_fuel
  ends_time h trimmed no_reason =
      round (λ r. r ≢ err out_of_fuel) 1 h trimmed (λ _ e. cc) (λ there. absurd (cc))
        (λ _ _.
          ends_none (delete_key published_at_key h) true
            (has_key-delete_other last_reason_key published_at_key h no_reason)
            (has_key-delete published_at_key h))
        (λ _ _ _ e. cc)

  ends_reason :
      (h : Headers) (trimmed : Bool)
      → has_key published_at_key h ≡ false
      → degrade marshal cap_bytes 2 h trimmed ≢ err out_of_fuel
  ends_reason h trimmed no_time =
      round (λ r. r ≢ err out_of_fuel) 1 h trimmed (λ _ e. cc)
        (λ _.
          ends_none (delete_key last_reason_key h) true (has_key-delete last_reason_key h)
            (has_key-delete_other published_at_key last_reason_key h no_time))
        (λ _ there. absurd (cc)) (λ _ _ _ e. cc)

  -- The fuel is enough for any map: each round drops one of two keys.
  pub degrade_ends :
      (h : Headers) (trimmed : Bool)
      → degrade marshal cap_bytes degrade_fuel h trimmed ≢ err out_of_fuel
  degrade_ends h trimmed =
      round (λ r. r ≢ err out_of_fuel) 2 h trimmed (λ _ e. cc)
        (λ _. ends_time (delete_key last_reason_key h) true (has_key-delete last_reason_key h))
        (λ _ _.
          ends_reason (delete_key published_at_key h) true (has_key-delete published_at_key h))
        (λ _ _ _ e. cc)

  -- What fits of `merged`: all of it, or all but keys that may be dropped, with a note that some were.
  pub record Fits (merged : Headers) (started : Bool) (out : Bytes × Bool) : Type 0 where
    pub kept : Headers
    pub text : out.0 ≡ marshal kept
    pub within : length out.0 ≤ cap_bytes
    pub rest : (k : Bytes) → k ≢ last_reason_key → k ≢ published_at_key → get k kept ≡ get k merged
    pub whole : ((out.1 ≡ started) × (kept ≡ merged)) ⊎ (out.1 ≡ true)

  -- Without the keys that may be dropped they are still too long.
  pub record Overflows (merged : Headers) : Type 0 where
    pub kept : Headers
    pub no_reason : has_key last_reason_key kept ≡ false
    pub no_time : has_key published_at_key kept ≡ false
    pub too_long : cap_bytes < length (marshal kept)
    pub rest : (k : Bytes) → k ≢ last_reason_key → k ≢ published_at_key → get k kept ≡ get k merged

  -- The answer is one that fits, or that there is no room.
  abbrev pub Answers : Headers → Bool → Result HeaderError (Bytes × Bool) → Type 0
  Answers merged started (ok out) = Fits merged started out
  Answers merged started (err not_json) = ⊥
  Answers merged started (err no_room) = Overflows merged
  Answers merged started (err out_of_fuel) = Unit

  dropped_key-Answers :
      (key : Bytes) (h : Headers) (started : Bool) (r : Result HeaderError (Bytes × Bool))
      → ((k : Bytes)
          → k ≢ last_reason_key
          → k ≢ published_at_key
          → get k (delete_key key h) ≡ get k h)
      → Answers (delete_key key h) true r
      → Answers h started r
  dropped_key-Answers key h started (err not_json) same f = f
  dropped_key-Answers key h started (err no_room) same f = record {
    kept = f.kept;
    no_reason = f.no_reason;
    no_time = f.no_time;
    too_long = f.too_long;
    rest = λ k p q. f.rest k p q ∙ same k p q;
  }
  dropped_key-Answers key h started (err out_of_fuel) same f = tt
  dropped_key-Answers key h started (ok out) same f = record {
    kept = f.kept;
    text = f.text;
    within = f.within;
    rest = λ k p q. f.rest k p q ∙ same k p q;
    whole = inr (elim f.whole [ inl (noted, _) ↦ noted | inr noted ↦ noted ]);
  }

  degrade-Answers :
      (fuel : ℕ) (h : Headers) (trimmed : Bool)
      → Answers h trimmed (degrade marshal cap_bytes fuel h trimmed)
  unfolding degrade
  degrade-Answers zero h trimmed = tt
  degrade-Answers (suc fuel) h trimmed =
      round (Answers h trimmed) fuel h trimmed
        (λ fits. record {
          kept = h;
          text = refl;
          within = ground arith;
          rest = λ k p q. refl;
          whole = inl (refl, refl);
        })
        (λ _.
          dropped_key-Answers last_reason_key h trimmed _
            (λ k p q. get-delete k last_reason_key h p)
            (degrade-Answers fuel (delete_key last_reason_key h) true))
        (λ _ _.
          dropped_key-Answers published_at_key h trimmed _
            (λ k p q. get-delete k published_at_key h q)
            (degrade-Answers fuel (delete_key published_at_key h) true))
        (λ too_long no_reason no_time. record {
          kept = h;
          no_reason = no_reason;
          no_time = no_time;
          too_long = ground arith;
          rest = λ k p q. refl;
        })

  -- What every answer says of the origin's stored headers and of those laid over them.
  abbrev pub Merges :
      (Bytes → Option Headers) → Bytes → Headers → Result HeaderError (Bytes × Bool) → Type 0
  Merges unmarshal hdr prov (ok out) =
      (user : Headers) × (user_headers unmarshal hdr ≡ ok user)
      × Fits (lay_over prov user) false out
  Merges unmarshal hdr prov (err not_json) = user_headers unmarshal hdr ≡ err not_json
  Merges unmarshal hdr prov (err no_room) =
      (user : Headers) × (user_headers unmarshal hdr ≡ ok user) × Overflows (lay_over prov user)
  Merges unmarshal hdr prov (err out_of_fuel) = ⊥

  degraded-Merges :
      (unmarshal : Bytes → Option Headers) (hdr : Bytes) (prov user : Headers)
      (r : Result HeaderError (Bytes × Bool))
      → user_headers unmarshal hdr ≡ ok user
      → Answers (lay_over prov user) false r
      → r ≢ err out_of_fuel
      → Merges unmarshal hdr prov r
  degraded-Merges unmarshal hdr prov user (ok out) read a ends = (user, read, a)
  degraded-Merges unmarshal hdr prov user (err not_json) read a ends = absurd a
  degraded-Merges unmarshal hdr prov user (err no_room) read a ends = (user, read, a)
  degraded-Merges unmarshal hdr prov user (err out_of_fuel) read a ends = ends refl

  -- The merge ends. What it answers fits the limit, and is the origin's headers with the provenance
  -- laid over them, all of them unless it says that some were dropped, and then all but the last reason
  -- and the time of the origin; it fails only where the stored text is no JSON, or where the headers
  -- are too long even without those two.
  pub merge_copy_headers-Merges :
      (unmarshal : Bytes → Option Headers) (hdr : Bytes) (prov : Headers)
      → Merges unmarshal hdr prov (merge_copy_headers marshal unmarshal cap_bytes hdr prov)
  unfolding merge_copy_headers
  merge_copy_headers-Merges unmarshal hdr prov = merged hdr (user_headers unmarshal hdr) refl
    where
      merged :
          (hdr : Bytes) (read : Result HeaderError Headers)
          → user_headers unmarshal hdr ≡ read
          → Merges unmarshal hdr prov
              (read >>= λ user. degrade marshal cap_bytes degrade_fuel (lay_over prov user) false)
      merged hdr (ok user) e =
          degraded-Merges unmarshal hdr prov user _ e
            (degrade-Answers degrade_fuel (lay_over prov user) false)
            (degrade_ends (lay_over prov user) false)
      merged hdr (err not_json) e = e
      merged hdr (err no_room) e = let wrong = user_headers-err unmarshal hdr e in absurd (cc)
      merged hdr (err out_of_fuel) e = let wrong = user_headers-err unmarshal hdr e in cc
