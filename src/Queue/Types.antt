-- ===== src/Queue/Types.antt =====
-- What the modules of internal/queue share: errors, time, and the configurations of streams and
-- consumers (config.go, consumer.go).
pub mod Rounding
use messq.Common.{
  ℕ, ◌*◌, ◌^◌, ◌-◌, List, [], ◌∷◌, Bool, true, false, Option, Bytes, codes, ℤ, pos, negsuc, fdiv,
  quot, ◌+ℤ◌, wrap64,
}
use messq.Errs.{Sentinel}
use messq.Subject.Grammar.{SubjectError}

-- What a call of the package returns as its error. `sentinel` is errs.E, whose message is left out.
pub data Error : Type 0 where
  sentinel : Sentinel → Error
  grammar : SubjectError → Error
  reserved_name : Error
  would_lose_data : Bytes → ℤ → ℤ → Error
  body_too_large : ℕ → ℤ → Error
  mismatch : Bytes → List Bytes → Error

-- time.Duration: nanoseconds in an int64.
abbrev pub Duration : Type 0
Duration = ℤ

abbrev pub millisecond : ℕ
millisecond = 1_000_000

abbrev pub second : ℕ
second = 1_000_000_000

-- Duration.Milliseconds rounds toward zero.
unfoldable pub milliseconds : Duration → ℤ
unfolding quot
milliseconds d = quot d millisecond

-- time.Time: nanoseconds since the epoch.
abbrev pub Time : Type 0
Time = ℤ

-- Time.UnixMilli rounds down, into an int64.
unfoldable pub unix_milli : Time → ℤ
unfolding fdiv wrap64
unix_milli t = wrap64 (fdiv t millisecond)

-- A scheduling jitter: a function of the delay. It is drawn from outside; a nil jitter is `none`.
abbrev pub Jitter : Type 0
Jitter = Duration → Duration

pub data DeadPolicy : Type 0 where
  dlq drop : DeadPolicy
  other_policy : Bytes → DeadPolicy

pub record ConsumerConfig : Type 0 where
  pub name : Bytes
  pub filters : List Bytes
  pub ack_wait : Duration
  pub max_deliver : ℤ
  pub max_ack_pending : ℤ
  pub backoff : List Duration
  pub dead_policy : DeadPolicy
  pub paused : Bool

abbrev seconds : ℕ → Duration
seconds n = pos (n * second)

unfoldable pub default_consumer_backoff : List Duration
default_consumer_backoff = seconds 1 ∷ seconds 5 ∷ seconds 30 ∷ seconds 120 ∷ seconds 600 ∷ []

unfoldable pub default_consumer_config : Bytes → ConsumerConfig
unfolding default_consumer_backoff
default_consumer_config name = record {
  name = name;
  filters = codes ">" ∷ [];
  ack_wait = seconds 30;
  max_deliver = pos 5;
  max_ack_pending = pos 1000;
  backoff = default_consumer_backoff;
  dead_policy = dlq;
  paused = false;
}

pub data Retention : Type 0 where
  limits workqueue : Retention
  other_retention : Bytes → Retention

pub data Discard : Type 0 where
  old new : Discard
  other_discard : Bytes → Discard

pub record StreamConfig : Type 0 where
  pub name : Bytes
  pub subjects : List Bytes
  pub retention : Retention
  pub max_msgs : ℤ
  pub max_bytes : ℤ
  pub max_age : Duration
  pub max_msg_size : ℤ
  pub discard : Discard
  pub dedup_window : Duration
