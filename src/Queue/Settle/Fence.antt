-- ===== src/Queue/Settle/Fence.antt =====
-- The fence of PlanSettle (internal/queue/settle.go): what a plan may touch.
use messq.Common.{◌≡◌, ◌≢◌, ◌↔◌, ◌⊎◌, Bool, true, false, Result, err, arith, if◌then◌else◌}
use messq.Queue.Types.{Error, Time}
use messq.Queue.Settle.{
  SettleRequest, SettlePlan, ItemStatus, noop, Verb, plan_settle, ack, term, act_ack, act_dead,
}

-- The token names the consumer's generation, a live row, and that row's attempt.
pub record Fenced (req : SettleRequest) : Type 0 where
  pub same_generation : req.token.generation ≡ req.generation
  pub row_is_live : req.row_present ≡ true
  pub same_attempt : req.token.attempt ≡ req.row_attempts

-- A plan that mutates a row has passed the whole fence, and answers ok.
pub mutation-Fenced :
    (req : SettleRequest) (now : Time) {plan : SettlePlan}
    → plan_settle req now ≡ Result.ok plan
    → plan.action ≢ noop
    → Fenced req × (plan.status ≡ ItemStatus.ok)
unfolding plan_settle
mutation-Fenced req now h acts = ground arith

-- A plan answers ok exactly when it mutates the row: every other status leaves it alone.
pub ok_iff_mutation :
    (req : SettleRequest) (now : Time) {plan : SettlePlan}
    → plan_settle req now ≡ Result.ok plan
    → (plan.status ≡ ItemStatus.ok) ↔ (plan.action ≢ noop)
unfolding plan_settle
ok_iff_mutation req now h = ground arith

-- The planner returned a plan, and not an error, and `P` holds of the plan.
abbrev pub Plans : (SettlePlan → Type 0) → Result Error SettlePlan → Type 0
Plans P (Result.ok plan) = P plan
Plans P (err e) = ⊥

-- A request that fails the fence is answered by a plan, never by an error, and the plan neither
-- mutates the row nor answers ok.
pub unfenced_answered :
    (req : SettleRequest) (now : Time)
    → ¬ Fenced req
    → Plans (λ plan. (plan.action ≡ noop) × (plan.status ≢ ItemStatus.ok)) (plan_settle req now)
unfolding plan_settle
unfenced_answered req now h =
    let fails : (req.token.generation ≡ req.generation)
        → (req.row_present ≡ true)
        → (req.token.attempt ≡ req.row_attempts)
        → ⊥ =
      λ g p a. h (record { same_generation = g; row_is_live = p; same_attempt = a }) in
    ground arith

abbrev is_ack : Verb → Bool
is_ack ack = true
is_ack _ = false

-- An ack or a term that passes the fence is granted, whatever the row's state and deadline.
pub closing_granted :
    (req : SettleRequest) (now : Time)
    → Fenced req
    → (req.verb ≡ ack) ⊎ (req.verb ≡ term)
    → Plans
        (λ plan.
          (plan.status ≡ ItemStatus.ok)
          × (plan.action ≡ (if is_ack req.verb then act_ack else act_dead)))
        (plan_settle req now)
unfolding plan_settle
closing_granted req now fenced v = ground arith
