-- ===== src/Store/Sweep/Examples.antt =====
-- A run of the sweep, and its theorems at a concrete input.
use messq.Common.{
  ◌≡◌, ◌+◌, refl, ℕ, ◌*◌, [], ◌∷◌, List, true, false, none, some, Option, codes, pos, Result, ok,
}
use messq.Queue.Types.{second, default_consumer_backoff}
use messq.Queue.Settle.{ready, inflight}
use messq.Queue.Sweep.{SweepRow, SweepPolicy}
use messq.Store.Rows.{DeliveryRow}
use messq.Store.Settle.{Event, msg_dead, msg_timeout, row_of}
use messq.Store.Sweep.{SweepResult, SweepState, SweepCmd, sweep_rows}
use messq.Store.Sweep.Accounts.{counted, sweep_rows-counts}
use messq.Store.Sweep.Idle.{is_idle}

abbrev row : ℕ → ℕ → DeliveryRow
row seq attempts = record {
  seq = seq;
  subject = codes "a.b";
  state = inflight;
  attempts = attempts;
  visible_at = pos 5_000;
  generation = 1;
  delivered_at = pos 1_000;
  last_reason = [];
}

abbrev loaded_row : ℕ → ℕ → SweepRow
loaded_row seq attempts = record {
  key = record { stream = codes "orders"; consumer = codes "billing" };
  seq = seq;
  subject = codes "a.b";
  attempts = attempts;
  generation = 1;
  visible_at = pos 5_000;
  delivered_at = pos 1_000;
  last_reason = [];
  msg_id = [];
  trace_id = [];
}

abbrev policy : SweepPolicy
policy = record {
  ack_wait = pos (30 * second);
  max_deliver = pos 5;
  backoff = default_consumer_backoff;
  generation = 1;
}

-- The sink counts the deaths that it took.
abbrev command : SweepCmd ℕ
command = record {
  sink = λ k d now.
      (ok (record { name = msg_dead; seq = d.seq; attempt = d.attempts; at = now }), k + 1);
  jitter = none;
}

abbrev no_rows_yet : SweepResult
no_rows_yet = record {
  redelivered = 0;
  dead = 0;
  skipped = 0;
  deferred = 0;
  woke = false;
  max_lateness_ms = pos 0;
}

abbrev before : SweepState ℕ
before = record {
  rows = row 2 5 ∷ record (row 4 1) { state = ready } ∷ row 6 1 ∷ [];
  result = no_rows_yet;
  events = [];
  sink_state = 0;
}

-- Message 3 was acked, and message 4 was released, after the sweep had loaded them.
abbrev expired : List SweepRow
expired = loaded_row 2 5 ∷ loaded_row 3 1 ∷ loaded_row 4 1 ∷ loaded_row 6 1 ∷ []

abbrev timeout : ℕ → ℕ → Event
timeout seq attempt = record { name = msg_timeout; seq = seq; attempt = attempt; at = pos 6_000 }

abbrev after : SweepState ℕ
after = record {
  rows =
      record (row 4 1) { state = ready }
      ∷ record (row 6 1) { state = ready; visible_at = pos 7_000; last_reason = codes "ack_wait" }
      ∷ [];
  result = record no_rows_yet {
    redelivered = 1;
    dead = 1;
    skipped = 2;
    max_lateness_ms = pos 1_000;
  };
  events =
      timeout 2 5
      ∷ record { name = msg_dead; seq = 2; attempt = 5; at = pos (6 * second) }
      ∷ timeout 3 1
      ∷ timeout 4 1
      ∷ timeout 6 1
      ∷ [];
  sink_state = 1;
}

sweep_runs : sweep_rows command (pos (6 * second)) (some policy) expired before ≡ ok after
unfolding sweep_rows messq.Queue.Sweep.decide_sweep messq.Queue.Types.unix_milli messq.Common.add64
    messq.Common.sub64 messq.Queue.Types.milliseconds default_consumer_backoff
sweep_runs = refl

sweep_rows-counts_example : counted after.result ≡ counted no_rows_yet + 4
sweep_rows-counts_example =
    sweep_rows-counts command (pos (6 * second)) (some policy) expired before {out = after}
      sweep_runs

row_four_idle : is_idle (row_of 4 before.rows) ≡ true
unfolding row_of
row_four_idle = refl
