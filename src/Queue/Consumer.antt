-- ===== src/Queue/Consumer.antt =====
-- internal/queue/consumer.go: the retry horizon, the dead-letter policy of a stream, and the
-- validation of a consumer's configuration.
pub mod Horizon
use messq.Common.{
  ℕ, zero, suc, ◌+◌, ◌-◌, ◌*◌, ◌^◌, List, [], ◌∷◌, Bool, true, false, not, ◌&&◌, ◌||◌, Bytes, codes,
  has_suffix, ℤ, pos, pos_part, ltb_ℤ, leb_ℤ, eq_ℤ, add64, mul64, leb, ltb, ◌==◌, if◌then◌else◌,
  length, get_or, Result, ok, err, map_err, ◌>>=◌, ◌>>◌, require,
}
use messq.Errs.{bad_request}
use messq.Subject.Grammar.{parse_set}
use messq.Subject.Name
use messq.Queue.Types.{
  Error, sentinel, grammar, Duration, second, ConsumerConfig, DeadPolicy, dlq, drop, other_policy,
}

pub record ConsumerLimits : Type 0 where
  pub min_ack_wait : Duration
  pub max_ack_wait : Duration
  pub max_filters : ℕ
  pub max_backoff_entries : ℕ
  pub max_backoff_delay : Duration
  pub max_ack_pending_cap : ℤ
  pub max_consumers : ℕ
  pub scan_limit : ℕ
  pub max_fetch_batch : ℕ
  pub fetch_max_bytes : ℤ
  pub flow_blocked_interval : Duration

unfoldable pub default_consumer_limits : ConsumerLimits
default_consumer_limits = record {
  min_ack_wait = pos 100_000_000;
  max_ack_wait = pos (3600 * second);
  max_filters = 32;
  max_backoff_entries = 16;
  max_backoff_delay = pos (86_400 * second);
  max_ack_pending_cap = pos 1_000_000;
  max_consumers = 1024;
  scan_limit = 4096;
  max_fetch_batch = 1024;
  fetch_max_bytes = pos 8_388_608;
  flow_blocked_interval = pos (10 * second);
}

abbrev pub max_deliver_cap : ℤ
max_deliver_cap = pos 1000

abbrev pub horizon_infinite : Duration
horizon_infinite = pos (2 ^ 63 - 1)

-- The loop of RetryHorizon: the rounds left, the index `i`, and the sum.
unfoldable pub horizon_loop : List Duration → ℕ → ℕ → Duration → Duration
horizon_loop backoff zero i sum = sum
horizon_loop backoff (suc rounds) i sum =
    let n = length backoff in
    let idx = if leb n i then n - 1 else i in
    horizon_loop backoff rounds (i + 1) (add64 sum (get_or backoff idx (pos 0)))

unfoldable pub retry_horizon : ConsumerConfig → Duration
retry_horizon c =
    if eq_ℤ c.max_deliver (pos 0)
    then horizon_infinite
    else if leb_ℤ c.max_deliver (pos 1) || length c.backoff == 0
    then pos 0
    else horizon_loop c.backoff (pos_part c.max_deliver - 1) 0 (pos 0)

unfoldable pub time_to_dead : ConsumerConfig → Duration
unfolding retry_horizon
time_to_dead c =
    if eq_ℤ c.max_deliver (pos 0)
    then horizon_infinite
    else add64 (mul64 c.max_deliver c.ack_wait) (retry_horizon c)

unfoldable pub backoff_monotonic : List Duration → Bool
backoff_monotonic [] = true
backoff_monotonic (a ∷ []) = true
backoff_monotonic (a ∷ b ∷ ds) = not (ltb_ℤ b a) && backoff_monotonic (b ∷ ds)

unfoldable pub validate_consumer_name : Bytes → Result Error (Unit {0})
validate_consumer_name name = map_err grammar (Name.validate_consumer_name name)

pub data Warning : Type 0 where
  max_deliver_unlimited backoff_nonmonotonic horizon_shorter_than_ack_wait : Warning

abbrev pub in_range : ℤ → ℤ → ℤ → Bool
in_range lo hi a = not (ltb_ℤ a lo) && not (ltb_ℤ hi a)

unfoldable pub all_in_range : ℤ → ℤ → List ℤ → Bool
all_in_range lo hi [] = true
all_in_range lo hi (a ∷ as') = in_range lo hi a && all_in_range lo hi as'

known_policy : DeadPolicy → Bool
known_policy dlq = true
known_policy drop = true
known_policy (other_policy _) = false

-- `if test { w = append(w, x) }`, before what is appended later.
warn : Bool → Warning → List Warning → List Warning
warn true x later = x ∷ later
warn false x later = later

unfoldable pub warnings : ConsumerConfig → List Warning
unfolding warn retry_horizon backoff_monotonic
warnings c = warn (eq_ℤ c.max_deliver (pos 0)) max_deliver_unlimited (
    warn (not (backoff_monotonic c.backoff)) backoff_nonmonotonic (
      warn (ltb_ℤ (pos 1) c.max_deliver && ltb_ℤ (retry_horizon c) c.ack_wait)
        horizon_shorter_than_ack_wait []))

unfoldable pub validate_consumer_config :
    ConsumerConfig → ConsumerLimits → Result Error (List Warning)
unfolding validate_consumer_name all_in_range known_policy warnings
validate_consumer_config c l = do
  validate_consumer_name c.name
  require (leb 1 (length c.filters) && leb (length c.filters) l.max_filters) (sentinel bad_request)
  map_err grammar (parse_set c.filters) >>= λ _. ok tt
  require (in_range l.min_ack_wait l.max_ack_wait c.ack_wait) (sentinel bad_request)
  require (in_range (pos 0) max_deliver_cap c.max_deliver) (sentinel bad_request)
  require (in_range (pos 1) l.max_ack_pending_cap c.max_ack_pending) (sentinel bad_request)
  require (leb 1 (length c.backoff) && leb (length c.backoff) l.max_backoff_entries)
      (sentinel bad_request)
  require (all_in_range (pos 0) l.max_backoff_delay c.backoff) (sentinel bad_request)
  require (known_policy c.dead_policy) (sentinel bad_request)
  ok (warnings c)

abbrev pub reserved_suffix : Bytes
reserved_suffix = codes ".dlq"

unfoldable pub default_dead_policy_for_stream : Bytes → DeadPolicy
unfolding has_suffix
default_dead_policy_for_stream stream = if has_suffix stream reserved_suffix then drop else dlq

is_dlq_policy : DeadPolicy → Bool
is_dlq_policy dlq = true
is_dlq_policy _ = false

unfoldable pub validate_dead_policy_for_stream : Bytes → DeadPolicy → Result Error (Unit {0})
unfolding has_suffix is_dlq_policy
validate_dead_policy_for_stream stream dp =
    require (not (has_suffix stream reserved_suffix && is_dlq_policy dp)) (sentinel bad_request)
