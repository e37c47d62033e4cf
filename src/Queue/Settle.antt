-- ===== src/Queue/Settle.antt =====
-- internal/queue/settle.go: the settle planner. It decides whether a settle may touch a delivery
-- row and, when it may, which mutation it is.
pub mod Fence
pub mod Lease
use messq.Common.{
  ℕ, List, [], Bool, true, false, ◌&&◌, Option, none, some, Bytes, codes, ℤ, pos, ltb_ℤ, leb_ℤ,
  eq_ℤ, not, ◌+ℤ◌, add64, sub64, ltb, ◌==◌, if◌then◌else◌, Result, err, ◌>>=◌,
}
use messq.Errs.{bad_request}
use messq.Queue.Types.{
  Error, sentinel, Duration, milliseconds, Time, unix_milli, Jitter, ConsumerConfig,
}
use messq.Queue.Backoff.{release_delay}
use messq.Queue.Token.{Token}

pub data Verb : Type 0 where
  ack nak term extend : Verb
  other_verb : Bytes → Verb

pub data ItemStatus : Type 0 where
  ok stale stale_ack wrong_generation unknown : ItemStatus

pub data DeliveryState : Type 0 where
  ready inflight : DeliveryState

pub data SettleAction : Type 0 where
  noop act_ack act_release act_extend act_dead : SettleAction

-- `no_cause` is the empty string of a plan that is not dead.
pub data DeadCause : Type 0 where
  no_cause max_deliver terminated : DeadCause

pub record SettleRequest : Type 0 where
  pub verb : Verb
  pub token : Token
  pub generation : ℕ
  pub cursor_seq : ℕ
  pub config : ConsumerConfig
  pub max_ack_wait : Duration
  pub row_present : Bool
  pub row_state : DeliveryState
  pub row_attempts : ℕ
  pub row_visible_at : ℤ
  pub row_delivered_at : ℤ
  pub nak_delay : Option Duration
  pub jitter : Option Jitter

pub record SettlePlan : Type 0 where
  pub status : ItemStatus
  pub action : SettleAction
  pub late : Bool
  pub dead : Bool
  pub cause : DeadCause
  pub reason : Bytes
  pub current_attempt : ℕ
  pub new_visible_at : ℤ
  pub held_ms : ℤ

-- A plan of the status and action given, its other fields zero.
abbrev pub plain : ItemStatus → SettleAction → SettlePlan
plain s a = record {
  status = s;
  action = a;
  late = false;
  dead = false;
  cause = no_cause;
  reason = [];
  current_attempt = 0;
  new_visible_at = pos 0;
  held_ms = pos 0;
}

abbrev pub is_ready : DeliveryState → Bool
is_ready ready = true
is_ready inflight = false

unfoldable pub plan_ack : SettleRequest → Time → SettlePlan
plan_ack req now = record (plain ItemStatus.ok act_ack) {
  held_ms =
      if eq_ℤ req.row_delivered_at (pos 0)
      then pos 0
      else sub64 (unix_milli now) req.row_delivered_at;
  late = is_ready req.row_state;
}

unfoldable pub dead_plan : DeadCause → SettlePlan
dead_plan cause = record (plain ItemStatus.ok act_dead) { dead = true; cause = cause }

-- The bound on deliveries, which a `max_deliver` of 0 lifts.
abbrev pub exhausted : ℤ → ℕ → Bool
exhausted bound attempts = ltb_ℤ (pos 0) bound && leb_ℤ bound (pos attempts)

unfoldable pub plan_nak : SettleRequest → Time → Result Error SettlePlan
unfolding release_delay dead_plan
plan_nak req now = do
  delay ← release_delay req.config req.row_attempts req.nak_delay req.jitter
  let computed = unix_milli (now +ℤ delay)
  let visible =
      if is_ready req.row_state && ltb_ℤ req.row_visible_at computed
      then req.row_visible_at
      else computed
  let released = record (plain ItemStatus.ok act_release) { new_visible_at = visible }
  let is_dead = not (is_ready req.row_state) && exhausted req.config.max_deliver req.row_attempts
  Result.ok (if is_dead then dead_plan max_deliver else released)

unfoldable pub plan_extend : SettleRequest → Time → Result Error SettlePlan
plan_extend req now =
    let now_ms = unix_milli now in
    let base = (if ltb_ℤ req.row_visible_at now_ms then now_ms else req.row_visible_at) in
    let new_deadline = add64 base (milliseconds req.config.ack_wait) in
    let max_hold = add64 req.row_delivered_at (milliseconds req.max_ack_wait) in
    if is_ready req.row_state
    then Result.ok (record (plain stale_ack noop) {
      current_attempt = req.row_attempts;
      reason = codes "not_inflight";
    })
    else if ltb_ℤ max_hold new_deadline
    then err (sentinel bad_request)
    else Result.ok (record (plain ItemStatus.ok act_extend) { new_visible_at = new_deadline })

-- The verb of a request that has passed the fence.
unfoldable pub apply_verb : Verb → SettleRequest → Time → Result Error SettlePlan
unfolding plan_ack plan_nak dead_plan plan_extend
apply_verb ack req now = Result.ok (plan_ack req now)
apply_verb nak req now = plan_nak req now
apply_verb term req now = Result.ok (dead_plan terminated)
apply_verb extend req now = plan_extend req now
apply_verb (other_verb _) req now = err (sentinel bad_request)

unfoldable pub plan_settle : SettleRequest → Time → Result Error SettlePlan
unfolding apply_verb
plan_settle req now =
    if not (req.token.generation == req.generation)
    then Result.ok (record (plain wrong_generation noop) { reason = codes "generation" })
    else if not req.row_present
    then (if ltb req.token.seq req.cursor_seq
        then Result.ok (plain stale noop)
        else Result.ok (plain unknown noop))
    else if not (req.token.attempt == req.row_attempts)
    then Result.ok (record (plain stale_ack noop) {
      current_attempt = req.row_attempts;
      reason = (if ltb req.row_attempts req.token.attempt then codes "future_attempt" else []);
    })
    else apply_verb req.verb req now
