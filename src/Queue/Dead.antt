-- ===== src/Queue/Dead.antt =====
-- internal/queue/dead.go: the decision to copy a dead message, and the budget of one transaction.
pub mod Budget
use messq.Common.{
  ℕ, ◌*◌, List, [], Bool, true, false, not, ◌&&◌, Option, none, some, Bytes, ℤ, pos, ltb_ℤ, leb_ℤ,
  sub64, if◌then◌else◌,
}
use messq.Queue.Types.{Duration, second, DeadPolicy, dlq, drop, other_policy}
use messq.Queue.Settle.{DeadCause}
use messq.Queue.Dlq.{dlq_name}

pub data DeadTrigger : Type 0 where
  no_trigger by_ack_wait by_nak by_term by_policy_lowered : DeadTrigger

pub record DeadCtx : Type 0 where
  pub stream : Bytes
  pub consumer : Bytes
  pub subject : Bytes
  pub seq : ℕ
  pub msg_id : Bytes
  pub trace_id : Bytes
  pub attempts : ℕ
  pub generation : ℕ
  pub max_deliver : ℤ
  pub cause : DeadCause
  pub trigger : DeadTrigger
  pub policy : DeadPolicy
  pub last_reason : Bytes

pub record DlqConfig : Type 0 where
  pub max_age : Duration
  pub max_msgs : ℤ
  pub max_bytes : ℤ
  pub max_msg_size : ℤ
  pub reason_header_bytes : ℕ
  pub max_copies_per_commit : ℤ
  pub max_bytes_per_commit : ℤ

unfoldable pub default_dlq_config : ℤ → DlqConfig
default_dlq_config max_msg_size_ceiling = record {
  max_age = pos (2_592_000 * second);
  max_msgs = pos 0;
  max_bytes = pos 0;
  max_msg_size = max_msg_size_ceiling;
  reason_header_bytes = 1024;
  max_copies_per_commit = pos 128;
  max_bytes_per_commit = pos 33_554_432;
}

pub record DeadBudget : Type 0 where
  pub copies : ℤ
  pub bytes : ℤ

unfoldable pub new_dead_budget : DlqConfig → DeadBudget
new_dead_budget cfg = record {
  copies = cfg.max_copies_per_commit;
  bytes = cfg.max_bytes_per_commit;
}

-- A nil budget is unlimited.
unfoldable pub can_copy : Option DeadBudget → ℤ → Bool
can_copy none size = true
can_copy (some b) size =
    if leb_ℤ b.copies (pos 0) then false else not (ltb_ℤ (pos 0) b.bytes && ltb_ℤ b.bytes size)

unfoldable pub spend : Option DeadBudget → ℤ → Option DeadBudget
spend none size = none
spend (some b) size = some (record { copies = sub64 b.copies (pos 1); bytes = sub64 b.bytes size })

pub record DeadPlan : Type 0 where
  pub copy : Bool
  pub dlq_stream : Bytes
  pub subject : Bytes
  pub trace_id : Bytes

copies_under : DeadPolicy → Bool
copies_under dlq = true
copies_under _ = false

unfoldable pub plan_dead : DeadCtx → DlqConfig → DeadPlan
unfolding copies_under dlq_name
plan_dead d cfg =
    let copied = copies_under d.policy in
    record {
      copy = copied;
      dlq_stream = if copied then dlq_name d.stream else [];
      subject = d.subject;
      trace_id = d.trace_id;
    }
