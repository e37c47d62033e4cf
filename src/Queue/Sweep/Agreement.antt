-- ===== src/Queue/Sweep/Agreement.antt =====
-- A timeout and a nak agree: the sweeper (internal/queue/sweep.go) and the settle planner
-- (internal/queue/settle.go) apply one retry policy.
use messq.Common.{◌≡◌, ◌<◌, Result, arith, ◌≤ℤ◌, ◌+ℤ◌, add64, Option, none, pos, ℕ, ◌+◌, ◌^◌}
use messq.Queue.Types.{Time, milliseconds, unix_milli, Jitter}
use messq.Queue.Backoff.{backoff_for, jittered}
use messq.Queue.Settle.{SettleRequest, SettlePlan, inflight, nak, plan_settle, act_release}
use messq.Queue.Types.Rounding.{rounded_sum}
use messq.Queue.Settle.Fence.{Fenced}
use messq.Queue.Sweep.{SweepRow, SweepPolicy, decide_sweep, sweep_redeliver}

-- One delivery, as the two planners are shown it.
pub record SameDelivery (req : SettleRequest) (r : SweepRow) (p : SweepPolicy) : Type 0 where
  pub attempts : req.row_attempts ≡ r.attempts
  pub generation : r.generation ≡ p.generation
  pub bound : req.config.max_deliver ≡ p.max_deliver

module _ (req : SettleRequest) (r : SweepRow) (p : SweepPolicy) (now : Time)
    (same : SameDelivery req r p) (fenced : Fenced req) (held : req.row_state ≡ inflight)
    (expired : r.visible_at ≤ℤ unix_milli now) {plan : SettlePlan}
    (planned : plan_settle req now ≡ Result.ok plan) where
  module _ (verb : req.verb ≡ nak) (schedule : req.config.backoff ≡ p.backoff)
      (no_explicit_delay : req.nak_delay ≡ none) where
    delays_alike :
        (j : Option Jitter)
        → req.jitter ≡ j
        → plan.action ≡ act_release
        → ((decide_sweep r p (unix_milli now) j).action ≡ sweep_redeliver)
          × (plan.new_visible_at
              ≡ unix_milli (now +ℤ jittered j (backoff_for req.config r.attempts)))
          × ((decide_sweep r p (unix_milli now) j).visible_at
              ≡ add64
                  (unix_milli now)
                  (milliseconds (jittered j (backoff_for req.config r.attempts))))
    unfolding plan_settle decide_sweep backoff_for
    delays_alike j e releases = ground arith

    -- When neither is dead, a nak and a timeout that draw the same delay `d` retry at the same
    -- millisecond, or the timeout a millisecond earlier.
    pub retry_alike :
        (j : Option Jitter) (n d : ℕ)
        → req.jitter ≡ j
        → plan.action ≡ act_release
        → now ≡ pos n
        → jittered j (backoff_for req.config r.attempts) ≡ pos d
        → n + d < 2 ^ 63
        → ((decide_sweep r p (unix_milli now) j).action ≡ sweep_redeliver)
          × ((decide_sweep r p (unix_milli now) j).visible_at ≤ℤ plan.new_visible_at)
          × (plan.new_visible_at ≤ℤ (decide_sweep r p (unix_milli now) j).visible_at +ℤ pos 1)
    retry_alike j n d e releases at_n draws fits =
        let (redelivers, nak_at, sweep_at) = delays_alike j e releases in
        let (lower, upper) = rounded_sum n d fits in
        rw (nak_at, sweep_at, draws) (redelivers, rw at_n lower, rw at_n upper)
