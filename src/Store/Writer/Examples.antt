-- ===== src/Store/Writer/Examples.antt =====
-- The writer (internal/store/writer.go) over a small database, and its theorems at concrete batches.
use messq.Common.{
  ℕ, ◌≡◌, zero, suc, refl, ap, ◌∙◌, ◌⊎◌, inl, inr, List, [], ◌∷◌, ◌++◌, true, false, Option, none,
  some, Result, ok, err, pos, codes, arith,
}
use messq.Errs.{not_found}
use messq.Queue.Types.{Time}
use messq.Store.Writer.Command.{Failure, Ending, returned, maybe_cmd_err}
use messq.Store.Writer.Database.{Database, IsAtomic}
use messq.Store.Writer.Commit.{
  Request, Writer, close_of_closed_channel, commit_batch, batch_now, apply_all,
}
use messq.Store.Writer.Serial.{serial, AllFresh}
use messq.Store.Writer.Refinement.{Outcome, commit_batch-Outcome}
use messq.Store.Writer.Crash.{commit_batch-crash}
use messq.Store.Writer.Assemble.{Config, fill_defaults, run, turn}
use messq.Store.Writer.Order.{Turned, turn-Turned}
use messq.Store.Writer.Drain.{Drained, run-Drained}

record Tx : Type 0 where
  work : List ℕ
  stack : List (ℕ × List ℕ)

pop : List (ℕ × List ℕ) → List (ℕ × List ℕ)
pop [] = []
pop (x ∷ xs) = xs

restored : Tx → List (ℕ × List ℕ) → Tx
restored t [] = t
restored t ((i, s) ∷ rest) = record t { work = s }

kept : Option Failure → List ℕ → List ℕ → List ℕ
kept none before after = after
kept (some e) before after = before

-- A database in memory, whose commits fail with `failure`.
abbrev memory : Option Failure → Database (List ℕ) Tx
memory failure = record {
  begin = λ s. ok (record { work = s; stack = [] });
  savepoint = λ i t. ok (record t { stack = (i, t.work) ∷ t.stack });
  release = λ i t. ok (record t { stack = pop t.stack });
  rollback_to = λ i t. ok (restored t t.stack);
  commit = λ s t. (kept failure s t.work, failure);
  view = λ t. t.work;
  write = λ s t. record t { work = s };
  saved = λ t. t.stack;
}

work-ok : {t u : Tx} → ◌≡◌ {A = Result Failure Tx} (ok t) (ok u) → u.work ≡ t.work
work-ok e = cc

stack-ok : {t u : Tx} → ◌≡◌ {A = Result Failure Tx} (ok t) (ok u) → u.stack ≡ t.stack
stack-ok e = cc

kept-choice :
    (failure : Option Failure) (before after : List ℕ)
    → (kept failure before after ≡ before) ⊎ (kept failure before after ≡ after)
unfolding kept
kept-choice none before after = inr refl
kept-choice (some e) before after = inl refl

memory-IsAtomic : (failure : Option Failure) → IsAtomic (memory failure)
unfolding restored kept
memory-IsAtomic failure = record {
  begin_view = λ s t e. work-ok e;
  savepoint_view = λ i t u e. work-ok e;
  savepoint_saved = λ i t u e. stack-ok e;
  release_view = λ i t u e. work-ok e;
  rollback_view = λ i t u s rest h e. work-ok e ∙ ap (λ l. (restored t l).work) h;
  write_view = λ s t. refl;
  write_saved = λ s t. refl;
  commit_done = λ s t h. ap (λ f. kept f s t.work) h;
  commit_failed = λ s t. kept-choice failure s t.work;
}

abbrev refused : Failure
refused =
    maybe_cmd_err (record { wraps = not_found ∷ []; text = codes "no such stream"; marked = false })

-- Appends a number, and fails after it has done so where the number is 0.
abbrev put : ℕ → List ℕ → Time → List ℕ × Ending ℕ ℕ
put zero s now = (s ++ (0 ∷ []), returned (err refused))
put (suc n) s now = (s ++ (suc n ∷ []), returned (ok (suc n, suc n ∷ [])))

abbrev request : ℕ → Request (List ℕ) ℕ ℕ
request n = record {
  cmd = record { kind = codes "put"; apply = put n; bytes = 100; solo = none };
  res = none;
  error = none;
  done = false;
}

abbrev checkpoint : Request (List ℕ) ℕ ℕ
checkpoint = record {
  cmd = record {
    kind = codes "checkpoint";
    apply = put 1;
    bytes = 0;
    solo = some (λ s now. (s, ok (0, [])));
  };
  res = none;
  error = none;
  done = false;
}

abbrev three : List (Request (List ℕ) ℕ ℕ)
three = request 7 ∷ request 0 ∷ request 9 ∷ []

three-AllFresh : AllFresh three
three-AllFresh = (refl, refl, (refl, refl, (refl, refl, tt)))

abbrev idle : Writer (List ℕ) ℕ
idle = record {
  store = 1 ∷ [];
  latched = none;
  last_now = pos 0;
  rw_open = true;
  read_only = false;
  ev_ch = [];
  fatal_c = [];
}

abbrev config : Config
config =
    (fill_defaults (record {
      commit_window = pos 0;
      commit_max_batch = pos 2;
      commit_max_bytes = pos 0;
      queue_depth = pos 0;
      fatal_drain = pos 0;
    })).0

abbrev disk_full : Failure
disk_full = record { wraps = []; text = codes "disk is full"; marked = false }

-- The rejected command leaves no trace, and its siblings are in the file.
three_committed :
    commit_batch (memory none) (pos 5) (pos 6) idle three
    ≡ ok (
      record idle { store = 1 ∷ 7 ∷ 9 ∷ []; last_now = pos 5; ev_ch = (7 ∷ 9 ∷ []) ∷ [] },
      (serial (pos 5) (1 ∷ []) three).answers,
    )
unfolding commit_batch serial maybe_cmd_err kept restored
three_committed = refl

commit_batch-Outcome_example :
    Outcome idle
      (batch_now idle (pos 5)).1
      (serial (batch_now idle (pos 5)).1 (1 ∷ []) three)
      3
      (commit_batch (memory none) (pos 5) (pos 6) idle three)
commit_batch-Outcome_example =
    commit_batch-Outcome (memory none) (memory-IsAtomic none) (pos 5) (pos 6) idle three refl
      three-AllFresh

commit_batch-crash_example :
    commit_batch (memory (some disk_full)) (pos 5) (pos 6) idle three ≡ err close_of_closed_channel
unfolding batch_now apply_all serial maybe_cmd_err restored pop
commit_batch-crash_example =
    commit_batch-crash (memory (some disk_full)) (memory-IsAtomic (some disk_full)) (pos 5) (pos 6)
      idle three _ (record { work = 1 ∷ 7 ∷ 9 ∷ []; stack = [] }) (7 ∷ 9 ∷ []) disk_full refl
      three-AllFresh refl refl refl refl

turn-Turned_example :
    Turned config
      (request 7 ∷ request 9 ∷ checkpoint ∷ [])
      (turn config 5 (some (request 7)) (request 9 ∷ checkpoint ∷ []))
turn-Turned_example = turn-Turned config 5 (some (request 7)) (request 9 ∷ checkpoint ∷ [])

run-Drained_example : Drained (request 7 ∷ request 9 ∷ checkpoint ∷ request 0 ∷ []) (
    run
      (memory none)
      config
      (λ n. pos n)
      (λ n. 5)
      4
      idle
      none
      (request 7 ∷ request 9 ∷ checkpoint ∷ request 0 ∷ []))
run-Drained_example =
    run-Drained (memory none) (memory-IsAtomic none) config (λ n. pos n) (λ n. 5) 4 idle none
      (request 7 ∷ request 9 ∷ checkpoint ∷ request 0 ∷ [])
      (refl, refl, (refl, refl, (refl, refl, (refl, refl, tt)))) (omega arith)
