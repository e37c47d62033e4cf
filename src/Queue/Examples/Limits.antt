-- ===== src/Queue/Examples/Limits.antt =====
-- The theorems on retention, the retry horizon, the disk machine and dead letters at concrete inputs.
use messq.Common.{
  ◌≡◌, ◌≤◌, ◌<◌, ◌≤ℤ◌, ◌<ℤ◌, refl, ℕ, ◌*◌, [], ◌∷◌, List, true, false, none, some, Bytes, codes, ℤ,
  pos, Result, ok, arith, length, InI64, All, pos_part, if◌then◌else◌, has_prefix,
}
use messq.Queue.Types.{ConsumerConfig, default_consumer_config}
use messq.Queue.Retention.{Candidate, RetentionView, plan_eviction}
use messq.Queue.Retention.Selection.{plan_eviction-IsSelection, Plans}
use messq.Queue.Disk.{disk_ok, DiskPolicy, recover_threshold}
use messq.Queue.Disk.Hysteresis.{Gate, IsInStep}
use messq.Queue.Dlq.{Headers}
use messq.Queue.Dead.{DeadBudget, can_copy, spend}
use messq.Queue.Dead.Budget.{exact_spend_lifts_bound}
use messq.Subject.Name.{validate_new_stream_name, validate_stream_name}

abbrev candidate : ℕ → ℕ → Candidate
candidate seq size = record {
  seq = seq;
  size = pos size;
  published_at = pos (1_000 * seq);
  has_delivery = false;
}

-- Three messages, the second pinned by a delivery; one message and 40 bytes too many.
abbrev three : List Candidate
three = candidate 1 50 ∷ record (candidate 2 10) { has_delivery = true } ∷ candidate 3 30 ∷ []

abbrev crowded : RetentionView
crowded = record {
  max_msgs = pos 2;
  max_bytes = pos 50;
  max_age_ms = pos 0;
  msgs = pos 3;
  bytes = pos 90;
  now_ms = pos 9_000;
}

plan_eviction-IsSelection_example : Plans three (pos 10) (plan_eviction three crowded (pos 10))
plan_eviction-IsSelection_example = plan_eviction-IsSelection three crowded (pos 10)

abbrev billing : ConsumerConfig
billing = default_consumer_config (codes "billing")

five_deliveries : billing.max_deliver ≡ pos 5
unfolding default_consumer_config
five_deliveries = refl

abbrev disk : DiskPolicy
disk = record { min_free = pos 100; scaled = pos 150; reserve = pos 10 }

abbrev open_gate : Gate
open_gate = record { rejecting = false; reserve_held = true }

open-IsInStep : IsInStep disk disk_ok open_gate
open-IsInStep = record { gate = refl; reserve = refl }

abbrev wavering : List ℤ
wavering = pos 90 ∷ pos 120 ∷ pos 95 ∷ pos 149 ∷ []

wavering_below : All (λ free. free <ℤ recover_threshold disk) wavering
unfolding recover_threshold
wavering_below = (omega arith, (omega arith, (omega arith, (omega arith, tt))))

orders_new : validate_new_stream_name (codes "orders") ≡ ok tt
unfolding validate_new_stream_name messq.Common.bytes_eq messq.Subject.Name.all_name_bytes
    messq.Subject.Name.name_byte messq.Subject.Name.starts_with_dot messq.Subject.Name.ends_with_dot
    messq.Subject.Name.has_two_dots
orders_new = refl

abbrev forged : Headers
forged = (codes "Messq-Dlq-Stream", codes "x") ∷ (codes "Colour", codes "red") ∷ []

abbrev budget : DeadBudget
budget = record { copies = pos 2; bytes = pos 100 }

exact_spend_lifts_bound_example :
    (can_copy (some budget) (pos 100) ≡ true)
    × (can_copy (spend (some budget) (pos 100)) (pos 5_000) ≡ true)
exact_spend_lifts_bound_example =
    exact_spend_lifts_bound budget (pos 100) (pos 5_000) (omega arith) (omega arith) refl
      (omega arith)
