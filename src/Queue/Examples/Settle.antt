-- ===== src/Queue/Examples/Settle.antt =====
-- Runs of the planners, and their theorems at concrete inputs.
use messq.Common.{
  ◌≡◌, ◌≢◌, ◌≤◌, ◌<◌, ◌+◌, ◌*◌, ◌^◌, ◌+ℤ◌, refl, inl, ℕ, [], ◌∷◌, true, false, none, some, Bytes,
  codes, ℤ, pos, Result, ok, arith, InI64, add64, sub64, mul64, wrap64, fdiv, quot, ◌-ℤ◌, ◌*ℤ◌,
  if◌then◌else◌,
}
use messq.Queue.Types.{
  Time, second, milliseconds, unix_milli, default_consumer_config, default_consumer_backoff,
}
use messq.Queue.Token.{Token, string, parse_token}
use messq.Queue.Token.RoundTrip.{string-parse_token, parse_token-string, IsMinted}
use messq.Queue.Settle.{
  Verb, ack, nak, extend, ItemStatus, ready, inflight, DeliveryState, noop, act_release, act_extend,
  SettleRequest, SettlePlan, plan_settle, plan_ack, plain,
}
use messq.Queue.Settle.Fence.{Fenced, mutation-Fenced}
use messq.Queue.Settle.Lease.{
  IsModest, AllTimes, WithinLease, Moves, after_extends, after_extends-Moves,
}
use messq.Queue.Sweep.{SweepRow, SweepPolicy}
use messq.Queue.Backoff.{backoff_for, jittered}
use messq.Subject.Name.{validate_stream_name, validate_consumer_name}

abbrev two : Token
two = record {
  stream = codes "orders";
  consumer = codes "billing";
  seq = 7;
  attempt = 2;
  generation = 1;
}

two-IsMinted : IsMinted two
unfolding validate_stream_name validate_consumer_name messq.Common.bytes_eq
    messq.Subject.Name.all_name_bytes messq.Subject.Name.name_byte
    messq.Subject.Name.starts_with_dot messq.Subject.Name.ends_with_dot
    messq.Subject.Name.has_two_dots
two-IsMinted = record {
  stream_valid = refl;
  consumer_valid = refl;
  seq_range = (omega arith, omega arith);
  attempt_range = (omega arith, omega arith);
  generation_range = (omega arith, omega arith);
}

two_text : string two ≡ codes "orders/billing/7/2/1"
unfolding string messq.Common.Decimal.format
two_text = refl

parse_token-string_example : parse_token (string two) ≡ ok two
parse_token-string_example = parse_token-string two two-IsMinted

string-parse_token_example : string two ≡ string two
string-parse_token_example =
    string-parse_token (string two) two (parse_token-string two two-IsMinted)

-- A request on the row of `two`, claimed at 1 s with a lease that ends at 31 s.
abbrev request : Verb → DeliveryState → SettleRequest
request verb state = record {
  verb = verb;
  token = two;
  generation = 1;
  cursor_seq = 9;
  config = default_consumer_config (codes "billing");
  max_ack_wait = pos (3600 * second);
  row_present = true;
  row_state = state;
  row_attempts = 2;
  row_visible_at = pos 31_000;
  row_delivered_at = pos 1_000;
  nak_delay = none;
  jitter = none;
}

abbrev at_20s : Time
at_20s = pos (20 * second)

two-Fenced : Fenced (request ack inflight)
two-Fenced = record { same_generation = refl; row_is_live = refl; same_attempt = refl }

abbrev acked : SettlePlan
acked = plan_ack (request ack inflight) at_20s

acked_planned : plan_settle (request ack inflight) at_20s ≡ ok acked
unfolding plan_settle
acked_planned = refl

acked_acts : acked.action ≢ noop
unfolding plan_ack
acked_acts = λ e. cc

mutation-Fenced_example : Fenced (request ack inflight) × (acked.status ≡ ItemStatus.ok)
mutation-Fenced_example =
    mutation-Fenced (request ack inflight) at_20s {plan = acked} acked_planned acked_acts

abbrev older : SettleRequest
older = record (request ack inflight) { row_attempts = 3 }

older_unfenced : ¬ Fenced older
older_unfenced = λ f. omega (arith, f.same_attempt)

abbrev extended : SettlePlan
extended = record (plain ItemStatus.ok act_extend) { new_visible_at = pos 61_000 }

extended_planned : plan_settle (request extend inflight) at_20s ≡ ok extended
unfolding plan_settle unix_milli milliseconds add64 default_consumer_config ◌+ℤ◌
extended_planned = refl

extends-IsModest : IsModest (request extend inflight)
unfolding milliseconds default_consumer_config
extends-IsModest = record {
  claimed_at = (omega arith, omega arith);
  wait = (omega arith, omega arith);
  longest = (omega arith, omega arith);
}

times-AllTimes : AllTimes (at_20s ∷ at_20s ∷ [])
unfolding unix_milli
times-AllTimes = ((omega arith, omega arith), ((omega arith, omega arith), tt))

lease-WithinLease : WithinLease (request extend inflight)
unfolding milliseconds ◌+ℤ◌
lease-WithinLease = (omega arith, omega arith)

after_extends-Moves_example :
    Moves
      (request extend inflight)
      (after_extends (request extend inflight) (at_20s ∷ at_20s ∷ [])).row_visible_at
after_extends-Moves_example =
    after_extends-Moves (request extend inflight) (at_20s ∷ at_20s ∷ []) extends-IsModest
      times-AllTimes lease-WithinLease

abbrev released : SettlePlan
released = record (plain ItemStatus.ok act_release) { new_visible_at = pos 25_000 }

released_planned : plan_settle (request nak ready) at_20s ≡ ok released
unfolding plan_settle unix_milli milliseconds default_consumer_config ◌+ℤ◌
released_planned = refl

abbrev expired_row : SweepRow
expired_row = record {
  key = record { stream = codes "orders"; consumer = codes "billing" };
  seq = 7;
  subject = codes "a.b";
  attempts = 2;
  generation = 1;
  visible_at = pos 15_000;
  delivered_at = pos 1_000;
  last_reason = [];
  msg_id = [];
  trace_id = [];
}

abbrev policy : SweepPolicy
policy = record {
  ack_wait = pos (30 * second);
  max_deliver = pos 5;
  backoff = default_consumer_backoff;
  generation = 1;
}

second_delay : jittered none (backoff_for (request nak inflight).config 2) ≡ pos (5 * second)
unfolding backoff_for default_consumer_config
second_delay = refl
