-- ===== src/Queue/Update/Safety.antt =====
-- ValidateUpdate (internal/queue/update.go): what an accepted update leaves in place.
use messq.Common.{
  >>=-eq-ok, require, ltb_ℤ, codes, Bytes, ◌&&◌, ap₂, ◌≡◌, ◌≢◌, ◌⊎◌, ◌↔◌, ◌≤ℤ◌, Bool, true, false,
  ℤ, pos, ok, arith, bytes_eq, bytes_eq_iff, refl,
}
use messq.Errs.{bad_request}
use messq.Queue.Types.{StreamConfig, Retention, limits, workqueue, sentinel}
use messq.Queue.Update.{Usage, validate_update, refuse, tightens, to_workqueue}

-- A limit that is unset, or is no tighter than the one before it, or has room for what is there.
abbrev pub NoTighter : ℤ → ℤ → ℤ → Type 0
NoTighter before after used =
    (after ≡ pos 0) ⊎ ((before ≢ pos 0) × (before ≤ℤ after)) ⊎ (used ≤ℤ after)

refused_not :
    (u : Usage) (test : Bool) (field : Bytes) → refuse false u test field ≡ ok tt → test ≡ false
unfolding refuse
refused_not u true field h = cc
refused_not u false field h = refl

room :
    (before after used : ℤ)
    → (tightens before after && ltb_ℤ after used) ≡ false
    → NoTighter before after used
unfolding tightens
room before after used h = ground arith

turned :
    (before after : Retention)
    → to_workqueue before after ≡ false
    → ¬ ((before ≡ limits) × (after ≡ workqueue))
unfolding to_workqueue
turned before after h (e, e') = cc (ap₂ to_workqueue e e', h)

-- An update accepted without leave to lose data keeps the name, keeps room for every stored message
-- and byte unless the old limit was as tight, and does not turn a stream of limits into a work queue.
pub validate_update-keeps :
    (before after : StreamConfig) (u : Usage)
    → validate_update before after u false ≡ ok tt
    → (after.name ≡ before.name)
      × NoTighter before.max_msgs after.max_msgs u.msgs
      × NoTighter before.max_bytes after.max_bytes u.bytes
      × ¬ ((before.retention ≡ limits) × (after.retention ≡ workqueue))
unfolding validate_update
validate_update-keeps before after u h =
    let (_, named, k₀) =
      >>=-eq-ok (require (bytes_eq after.name before.name) (sentinel bad_request)) _ h in
    let (_, msgs, k₁) =
      >>=-eq-ok
        (refuse false u (tightens before.max_msgs after.max_msgs && ltb_ℤ after.max_msgs u.msgs)
          (codes "max_msgs"))
        _ k₀ in
    let (_, bytes, k₂) =
      >>=-eq-ok
        (refuse false u (tightens before.max_bytes after.max_bytes && ltb_ℤ after.max_bytes u.bytes)
          (codes "max_bytes"))
        _ k₁ in
    let (_, _, k₃) =
      >>=-eq-ok
        (refuse false u (tightens before.max_age after.max_age && ltb_ℤ (pos 0) u.at_risk_msgs)
          (codes "max_age"))
        _ k₂ in
    (
      ground (arith, bytes_eq_iff after.name before.name),
      room before.max_msgs after.max_msgs u.msgs (refused_not u _ (codes "max_msgs") msgs),
      room before.max_bytes after.max_bytes u.bytes (refused_not u _ (codes "max_bytes") bytes),
      turned before.retention after.retention (refused_not u _ (codes "retention") k₃),
    )

-- With leave to lose data an update is accepted exactly when it keeps the name.
pub validate_update-allowed :
    (before after : StreamConfig) (u : Usage)
    → (validate_update before after u true ≡ ok tt) ↔ (after.name ≡ before.name)
unfolding validate_update
validate_update-allowed before after u = ground (arith, bytes_eq_iff after.name before.name)
