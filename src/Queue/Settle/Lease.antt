-- ===== src/Queue/Settle/Lease.antt =====
-- What PlanSettle does to the deadline of a row: extend and nak.
use messq.Common.{
  parts_normal, subst, sym, +ℤ_parts, Result-cases, All, inl, inr, refl, int_laws, if_both, ℕ, ◌^◌,
  pos, List, [], ◌∷◌, err, ◌≡◌, Result, arith, ◌≤ℤ◌, ◌+ℤ◌, ℤ, InI64, ltb_ℤ, if◌then◌else◌, add64-eq,
}
use messq.Queue.Types.{Error, Time, milliseconds, unix_milli}
use messq.Queue.Settle.{
  SettleRequest, SettlePlan, SettleAction, extend, noop, act_ack, act_dead, ready, inflight,
  plan_settle, act_extend, act_release,
}

-- The later of the deadline and the present.
abbrev pub lease_base : SettleRequest → Time → ℤ
lease_base req now =
    if ltb_ℤ req.row_visible_at (unix_milli now) then unix_milli now else req.row_visible_at

-- The sums that an extend makes fit an int64.
pub record Fits (req : SettleRequest) (now : Time) : Type 0 where
  pub deadline_fits : InI64 (lease_base req now +ℤ milliseconds req.config.ack_wait)
  pub cap_fits : InI64 (req.row_delivered_at +ℤ milliseconds req.max_ack_wait)

-- A granted extend adds one ack_wait to the later of the deadline and the present, and the whole
-- lease, counted from the claim, stays within max_ack_wait.
pub extend_within_cap :
    (req : SettleRequest) (now : Time) {plan : SettlePlan}
    → Fits req now
    → plan_settle req now ≡ Result.ok plan
    → plan.action ≡ act_extend
    → (plan.new_visible_at ≡ lease_base req now +ℤ milliseconds req.config.ack_wait)
      × (plan.new_visible_at ≤ℤ req.row_delivered_at +ℤ milliseconds req.max_ack_wait)
      × (req.row_state ≡ inflight)
unfolding plan_settle
extend_within_cap req now fits h extends = ground (
  arith,
  add64-eq (lease_base req now) (milliseconds req.config.ack_wait) fits.deadline_fits,
  add64-eq req.row_delivered_at (milliseconds req.max_ack_wait) fits.cap_fits,
)

-- A nak of a row that is ready never moves its deadline later.
pub nak_ready-le :
    (req : SettleRequest) (now : Time) {plan : SettlePlan}
    → req.row_state ≡ ready
    → plan_settle req now ≡ Result.ok plan
    → plan.action ≡ act_release
    → plan.new_visible_at ≤ℤ req.row_visible_at
unfolding plan_settle
nak_ready-le req now is_ready h releases = ground arith

-- What becomes of a row's deadline.
abbrev pub deadline_after : ℤ → Result Error SettlePlan → ℤ
deadline_after old (Result.ok plan) = elim plan.action [
  | noop ↦ old
  | act_ack ↦ old
  | act_release ↦ old
  | act_extend ↦ plan.new_visible_at
  | act_dead ↦ old
]
deadline_after old (err e) = old

-- The row after an extend at `now`, and after one at each of the times.
abbrev pub after_extend : SettleRequest → Time → SettleRequest
after_extend req now = record req {
  row_visible_at =
      deadline_after req.row_visible_at (plan_settle (record req { verb = extend }) now);
}

abbrev pub after_extends : SettleRequest → List Time → SettleRequest
after_extends req [] = req
after_extends req (now ∷ later) = after_extends (after_extend req now) later

abbrev pub Between : ℕ → ℤ → Type 0
Between most x = (pos 0 ≤ℤ x) × (x ≤ℤ pos most)

-- Times and durations that an int64 has room to add: in milliseconds, up to 2 ^ 60.
pub record IsModest (req : SettleRequest) : Type 0 where
  pub claimed_at : Between (2 ^ 60) req.row_delivered_at
  pub wait : Between (2 ^ 60) (milliseconds req.config.ack_wait)
  pub longest : Between (2 ^ 60) (milliseconds req.max_ack_wait)

abbrev pub lease_end : SettleRequest → ℤ
lease_end req = req.row_delivered_at +ℤ milliseconds req.max_ack_wait

abbrev pub WithinLease : SettleRequest → Type 0
WithinLease req = (pos 0 ≤ℤ req.row_visible_at) × (req.row_visible_at ≤ℤ lease_end req)

InI64-sum : (a b : ℤ) → pos 0 ≤ℤ a → a ≤ℤ pos (2 ^ 61) → Between (2 ^ 60) b → InI64 (a +ℤ b)
InI64-sum a b from to (low, high) =
    omega (int_laws, +ℤ_parts a b, parts_normal a, parts_normal b, parts_normal (a +ℤ b))

-- Not earlier than before, and not after the end of the lease.
abbrev pub Moves : SettleRequest → ℤ → Type 0
Moves req x = (req.row_visible_at ≤ℤ x) × (x ≤ℤ lease_end req)

module _ (req : SettleRequest) (now : Time) (m : IsModest req)
    (at : Between (2 ^ 60) (unix_milli now)) (h : WithinLease req) where
  lease_base-le : (req.row_visible_at ≤ℤ lease_base req now) × (lease_base req now ≤ℤ pos (2 ^ 61))
  lease_base-le =
      let (from, to) = m.claimed_at in
      let (lower, upper) = m.longest in
      if_both (λ x. (req.row_visible_at ≤ℤ x) × (x ≤ℤ pos (2 ^ 61)))
        (ltb_ℤ req.row_visible_at (unix_milli now)) (unix_milli now) req.row_visible_at
        (λ later. ground (arith))
        (λ _. ground (arith, +ℤ_parts req.row_delivered_at (milliseconds req.max_ack_wait)))

  modest-Fits : Fits (record req { verb = extend }) now
  modest-Fits = record {
    deadline_fits =
        InI64-sum (lease_base req now) (milliseconds req.config.ack_wait)
          (omega (int_laws, lease_base-le.0, h.0)) lease_base-le.1 m.wait;
    cap_fits =
        InI64-sum req.row_delivered_at (milliseconds req.max_ack_wait) m.claimed_at.0
          (let (_, to) = m.claimed_at in omega int_laws) m.longest;
  }

  plan-Moves :
      (plan : SettlePlan) (action : SettleAction)
      → plan.action ≡ action
      → plan_settle (record req { verb = extend }) now ≡ Result.ok plan
      → Moves req (deadline_after req.row_visible_at (Result.ok plan))
  plan-Moves plan act_extend e planned =
      let (same, within, _) =
        extend_within_cap (record req { verb = extend }) now modest-Fits planned e in
      let (later, _) = lease_base-le in
      let (wait, _) = m.wait in
      let sum : req.row_visible_at ≤ℤ lease_base req now +ℤ milliseconds req.config.ack_wait =
        omega (int_laws, +ℤ_parts (lease_base req now) (milliseconds req.config.ack_wait)) in
      rw e (subst (λ x. req.row_visible_at ≤ℤ x) (sym same) sum, within)
  plan-Moves plan noop e planned = rw e (omega int_laws, h.1)
  plan-Moves plan act_ack e planned = rw e (omega int_laws, h.1)
  plan-Moves plan act_release e planned = rw e (omega int_laws, h.1)
  plan-Moves plan act_dead e planned = rw e (omega int_laws, h.1)

  after_extend-Moves : Moves req (after_extend req now).row_visible_at
  after_extend-Moves = elim (Result-cases (plan_settle (record req { verb = extend }) now)) [
    | inl (plan, e) ↦ rw e (plan-Moves plan plan.action refl e)
    | inr (e, refused) ↦ rw refused (omega int_laws, h.1)
  ]

abbrev pub AllTimes : List Time → Type 0
AllTimes = All (λ (now : Time). Between (2 ^ 60) (unix_milli now))

-- However often a delivery is extended, and whenever, no extend moves its deadline earlier, and none
-- moves it more than max_ack_wait after the claim: with times and durations of up to 2 ^ 60 ms, a
-- deadline that lies in the lease at first stays there, whether the extends are granted or refused.
pub after_extends-Moves :
    (req : SettleRequest) (times : List Time)
    → IsModest req
    → AllTimes times
    → WithinLease req
    → Moves req (after_extends req times).row_visible_at
after_extends-Moves req [] m at h = (omega int_laws, h.1)
after_extends-Moves req (now ∷ later) m (at, ats) h =
    let (up, within) = after_extend-Moves req now m at h in
    let next = after_extend req now in
    let m' : IsModest next = record {
      claimed_at = m.claimed_at;
      wait = m.wait;
      longest = m.longest;
    } in
    let (more, still) = after_extends-Moves next later m' ats (omega (int_laws, h.0), within) in
    (omega int_laws, still)
