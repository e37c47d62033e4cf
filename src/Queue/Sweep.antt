-- ===== src/Queue/Sweep.antt =====
-- internal/queue/sweep.go: the decision on one expired delivery row.
pub mod Agreement
use messq.Common.{
  ℕ, List, [], Bool, false, ◌&&◌, Option, Bytes, codes, ℤ, pos, ltb_ℤ, add64, sub64, not, ◌==◌,
  if◌then◌else◌,
}
use messq.Queue.Types.{Duration, milliseconds, Jitter, ConsumerConfig, dlq, other_policy}
use messq.Queue.Backoff.{backoff_for, jittered}
use messq.Queue.Settle.{DeadCause, no_cause, max_deliver, exhausted}

pub record ConsumerKey : Type 0 where
  pub stream : Bytes
  pub consumer : Bytes

pub record SweepRow : Type 0 where
  pub key : ConsumerKey
  pub seq : ℕ
  pub subject : Bytes
  pub attempts : ℕ
  pub generation : ℕ
  pub visible_at : ℤ
  pub delivered_at : ℤ
  pub last_reason : Bytes
  pub msg_id : Bytes
  pub trace_id : Bytes

pub record SweepPolicy : Type 0 where
  pub ack_wait : Duration
  pub max_deliver : ℤ
  pub backoff : List Duration
  pub generation : ℕ

pub data SweepAction : Type 0 where
  sweep_skip sweep_dead sweep_redeliver : SweepAction

pub record SweepDecision : Type 0 where
  pub action : SweepAction
  pub visible_at : ℤ
  pub delay_ms : ℤ
  pub schedule_ms : ℤ
  pub cause : DeadCause
  pub trigger : Bytes
  pub held_ms : ℤ
  pub lateness_ms : ℤ
  pub skip : Bytes

-- The configuration that has nothing but the schedule.
unfoldable pub c_for_schedule : SweepPolicy → ConsumerConfig
c_for_schedule p = record {
  name = [];
  filters = [];
  ack_wait = pos 0;
  max_deliver = pos 0;
  max_ack_pending = pos 0;
  backoff = p.backoff;
  dead_policy = other_policy [];
  paused = false;
}

abbrev clamped : ℤ → ℤ
clamped a = if ltb_ℤ a (pos 0) then pos 0 else a

-- A decision of the action given, with how long the lease was held and how late the sweep is.
unfoldable pub decision : SweepRow → ℤ → SweepAction → SweepDecision
decision r now_ms a = record {
  action = a;
  visible_at = pos 0;
  delay_ms = pos 0;
  schedule_ms = pos 0;
  cause = no_cause;
  trigger = [];
  held_ms = clamped (sub64 now_ms r.delivered_at);
  lateness_ms = clamped (sub64 now_ms r.visible_at);
  skip = [];
}

unfoldable pub decide_sweep : SweepRow → SweepPolicy → ℤ → Option Jitter → SweepDecision
unfolding decision c_for_schedule backoff_for
decide_sweep r p now_ms j =
    let base = backoff_for (c_for_schedule p) r.attempts in
    let delay = jittered j base in
    if ltb_ℤ now_ms r.visible_at
    then record (decision r now_ms sweep_skip) { skip = codes "not_expired" }
    else if not (r.generation == p.generation)
    then record (decision r now_ms sweep_skip) { skip = codes "generation" }
    else if exhausted p.max_deliver r.attempts
    then record (decision r now_ms sweep_dead) {
      cause = max_deliver;
      trigger =
          (if ltb_ℤ p.max_deliver (pos r.attempts)
            then codes "policy_lowered"
            else codes "ack_wait");
    }
    else record (decision r now_ms sweep_redeliver) {
      visible_at = add64 now_ms (milliseconds delay);
      delay_ms = milliseconds delay;
      schedule_ms = milliseconds base;
      trigger = codes "ack_wait";
    }
