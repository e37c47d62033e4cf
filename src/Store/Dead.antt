-- ===== src/Store/Dead.antt =====
-- internal/store/dead.go: DLQSink.Dead, on the messages of the origin and the tables of its dead-letter
-- stream. The origin's row is read once, and nothing comes between that and the copy.
pub mod Provenance
pub mod Outcome
pub mod Accounts
pub mod Restart
pub mod Room
pub mod Sink
pub mod NoLoss
mod Examples
use messq.Common.{
  ℕ, suc, ◌*◌, List, [], ◌∷◌, ◌++◌, Bool, true, false, not, Option, none, some, Bytes, codes, ℤ,
  pos, ◌==◌, if◌then◌else◌, Result, ok, err, ◌>>=◌, map_err,
}
use messq.Queue.Types.{milliseconds, limits, old, DeadPolicy, dlq, drop}
use messq.Queue.Dlq.{Headers}
use messq.Queue.Dead.{DeadCtx, DlqConfig, DeadBudget, DeadPlan, can_copy, spend, plan_dead}
use messq.Store.Streams.Tables.{StreamRow, StoredMessage, Tables, CommandError}
use messq.Store.Streams.Admin.{stream_event}
use messq.Store.Streams.Publish.{
  alloc_seq, last_published, published_at, insert_message, bump_stats,
}
use messq.Store.Dead.Provenance.{HeaderError, provenance_headers, merge_copy_headers}

pub data DeadOutcome : Type 0 where
  written dropped origin_missing : DeadOutcome

-- What the msg.dead event tells of the copy.
pub record DeadEvent : Type 0 where
  pub outcome : DeadOutcome
  pub ctx : DeadCtx
  pub at : ℤ
  pub dlq_stream : Bytes
  pub dlq_seq : ℕ
  pub bytes : ℕ
  pub headers_trimmed : Bool
  pub reason_truncated : Bool

-- The spent budget, which the caller answers by leaving the row, and what aborts the command.
pub data DeadError : Type 0 where
  out_of_budget : DeadError
  headers : HeaderError → DeadError
  store : CommandError → DeadError

-- No row of the consumer counts as drop.
abbrev pub load_dead_policy : Option DeadPolicy → DeadPolicy
load_dead_policy none = drop
load_dead_policy (some p) = p

abbrev pub dlq_template_subjects : List Bytes
dlq_template_subjects = codes ">" ∷ []

unfoldable pub dlq_template : DlqConfig → Bytes → ℤ → StreamRow
unfolding milliseconds
dlq_template cfg name now_ms = record {
  name = name;
  subjects = dlq_template_subjects;
  retention = limits;
  max_msgs = cfg.max_msgs;
  max_bytes = cfg.max_bytes;
  max_age_ms = milliseconds cfg.max_age;
  max_msg_size = cfg.max_msg_size;
  discard = old;
  dedup_window_ms = pos 0;
  created_at = now_ms;
}

-- INSERT … ON CONFLICT DO NOTHING
abbrev pub or_new {ℓ} : {A : Type ℓ} → Option A → A → Option A
or_new none a = some a
or_new (some x) a = some x

abbrev pub create_event : Option StreamRow → ℤ → Tables → Tables
create_event none now_ms t = record t {
  events = t.events ++ (stream_event now_ms (codes "stream.create") ∷ []);
}
create_event (some r) now_ms t = t

unfoldable pub ensure_dlq_stream : DlqConfig → Bytes → ℤ → Tables → Tables
unfolding dlq_template
ensure_dlq_stream cfg name now_ms t = create_event t.row now_ms (record t {
  row = or_new t.row (dlq_template cfg name now_ms);
  next = or_new t.next 1;
  stats = or_new t.stats (0, 0);
})

-- SELECT … FROM messages WHERE seq = ?
unfoldable pub find_message : ℕ → List StoredMessage → Option StoredMessage
find_message n [] = none
find_message n (m ∷ ms) = let rest = find_message n ms in if m.seq == n then some m else rest

unfoldable pub clamp_published_at : List StoredMessage → ℤ → ℤ
unfolding last_published published_at
clamp_published_at ms now_ms = published_at now_ms (last_published ms)

unfoldable pub copy_of : StoredMessage → ℕ → Bytes → Bytes → ℤ → StoredMessage
copy_of m seq new_id hdr at = record m {
  seq = seq;
  id = new_id;
  hdr = hdr;
  published_at = at;
  dedup_key = none;
}

abbrev pub dead_event : DeadOutcome → DeadCtx → ℤ → DeadEvent
dead_event outcome d now_ms = record {
  outcome = outcome;
  ctx = d;
  at = now_ms;
  dlq_stream = [];
  dlq_seq = 0;
  bytes = 0;
  headers_trimmed = false;
  reason_truncated = false;
}

abbrev pub Buried : Type 0
Buried = DeadEvent × Tables × Option DeadBudget

-- The process's part of the sink.
pub record DlqSink : Type 0 where
  pub marshal : Headers → Bytes
  pub unmarshal : Bytes → Option Headers
  pub time_text : ℤ → Bytes
  pub max_header_bytes : ℕ
  pub cfg : DlqConfig

unfoldable pub max_dlq_header_bytes : DlqSink → ℕ
max_dlq_header_bytes s = s.max_header_bytes * 2

module _ (s : DlqSink) (new_id : Bytes) (now_ms : ℤ) where
  -- The copy, under the number that was allocated.
  unfoldable pub write_copy :
      DeadCtx → DeadPlan → Option DeadBudget → StoredMessage → ℕ × Tables → Result DeadError Buried
  unfolding provenance_headers merge_copy_headers clamp_published_at copy_of insert_message
      bump_stats spend max_dlq_header_bytes
  write_copy d plan budget m (seq, t) = do
    let prov = provenance_headers s.time_text d m.published_at now_ms s.cfg.reason_header_bytes
    hdr ←
        map_err headers
          (merge_copy_headers s.marshal s.unmarshal (max_dlq_header_bytes s) m.hdr prov.0)
    let copy = copy_of m seq new_id hdr.0 (clamp_published_at t.messages now_ms)
    messages ← map_err store (insert_message copy t.messages)
    ok (
      record (dead_event written d now_ms) {
        dlq_stream = plan.dlq_stream;
        dlq_seq = seq;
        bytes = m.size;
        headers_trimmed = hdr.1;
        reason_truncated = prov.1;
      },
      record t { messages = messages; stats = bump_stats m.size t.stats },
      spend budget (pos m.size),
    )

  unfoldable pub copy_dead :
      DeadCtx
      → DeadPlan
      → Option DeadBudget
      → Tables
      → Option StoredMessage
      → Result DeadError Buried
  unfolding can_copy ensure_dlq_stream alloc_seq write_copy
  copy_dead d plan budget t none = ok (dead_event origin_missing d now_ms, t, budget)
  copy_dead d plan budget t (some m) =
      let written_copy =
        map_err store (alloc_seq (ensure_dlq_stream s.cfg plan.dlq_stream now_ms t))
        >>= write_copy d plan budget m in
      if not (can_copy budget (pos m.size)) then err out_of_budget else written_copy

  -- DLQSink.Dead: the event, the tables of the dead-letter stream, and the budget that is left.
  unfoldable pub dead :
      Option DeadPolicy
      → List StoredMessage
      → Tables
      → DeadCtx
      → Option DeadBudget
      → Result DeadError Buried
  unfolding plan_dead find_message copy_dead
  dead policy origin t ctx budget =
      let d = record ctx { policy = load_dead_policy policy } in
      let plan = plan_dead d s.cfg in
      let copied = copy_dead d plan budget t (find_message d.seq origin) in
      if not plan.copy then ok (dead_event dropped d now_ms, t, budget) else copied
