-- ===== src/Store/Writer/Commit.antt =====
-- commitBatch and commitSolo with their teardown (writer.go): one transaction for a batch, the
-- answers to its callers, and the latch after a fault.
use messq.Common.{
  ℕ, suc, List, [], ◌∷◌, ◌++◌, length, Bool, true, false, not, Option, none, some, Result, ok, err,
  ◌>>=◌, map_err, ltb, ltb_ℤ, if◌then◌else◌,
}
use messq.Queue.Types.{Time}
use messq.Store.Writer.Command.{Failure, Cmd, is_cmd_error, apply_command}
use messq.Store.Writer.Database.{Database}

pub data Op : Type 0 where
  op_begin op_savepoint op_apply op_release op_rollback_to op_commit : Op

-- Its class, which a log line shows, is left out.
pub record FatalError : Type 0 where
  pub op : Op
  pub cause : Failure
  pub at : Time
  pub batch : ℕ

-- What a caller is answered: the command's own rejection, errors of the latch and of a lost batch.
pub data ReplyError : Type 0 where
  rejection : Failure → ReplyError
  writer_latched : FatalError → ReplyError
  commit_unknown : Op → Failure → ReplyError

-- `done` is whether the channel of that name is closed.
pub record Request (S R V : Type 0) : Type 0 where
  pub cmd : Cmd S R V
  pub res : Option R
  pub error : Option ReplyError
  pub done : Bool

-- A panic on the writer's goroutine, which nothing recovers.
pub data Panic : Type 0 where
  close_of_closed_channel : Panic

-- What ends the loop over a batch early.
pub data Halt : Type 0 where
  fault : Op → Failure → Halt
  panics : Panic → Halt

-- `store` is what the file holds. The pool `rw` is open or closed; `ev_ch` holds the events that
-- the pump has not yet taken, `fatal_c` what was sent to the supervisor.
pub record Writer (S V : Type 0) : Type 0 where
  pub store : S
  pub latched : Option FatalError
  pub last_now : Time
  pub rw_open : Bool
  pub read_only : Bool
  pub ev_ch : List (List V)
  pub fatal_c : List FatalError

abbrev pub event_buffer_batches : ℕ
event_buffer_batches = 64

-- close(r.done)
unfoldable pub close_done : {S R V : Type 0} → Request S R V → Result Panic (Request S R V)
close_done r = if r.done then err close_of_closed_channel else ok (record r { done = true })

unfoldable pub fail_all :
    {S R V : Type 0} → ReplyError → List (Request S R V) → Result Panic (List (Request S R V))
unfolding close_done
fail_all e [] = ok []
fail_all e (r ∷ rs) =
    close_done (record r { error = some e }) >>= λ r. fail_all e rs >>= λ rs. ok (r ∷ rs)

-- The replies after a commit: rejected callers have left already.
unfoldable pub reply_all :
    {S R V : Type 0} → List (Request S R V) → Result Panic (List (Request S R V))
unfolding close_done
reply_all [] = ok []
reply_all (r ∷ rs) =
    elim r.error [ none ↦ close_done r | some e ↦ ok r ] >>= λ r. reply_all rs >>= λ rs. ok (r ∷ rs)

unfoldable pub batch_now : {S V : Type 0} → Writer S V → Time → Writer S V × Time
batch_now w clock =
    let nano = if ltb_ℤ clock w.last_now then w.last_now else clock in
    (record w { last_now = nano }, nano)

unfoldable pub latch : {S V : Type 0} → FatalError → Writer S V → Writer S V
latch fe w = elim w.latched [
  | some first ↦ w
  | none ↦ record w { latched = some fe; read_only = true; fatal_c = w.fatal_c ++ (fe ∷ []) }
]

-- doomed and doomedCommit: the transaction is rolled back, the writer latched and its pool closed
-- before any caller is answered.
unfoldable pub doomed :
    {S R V : Type 0}
    → List (Request S R V)
    → Op
    → Failure
    → Time
    → Writer S V
    → Result Panic (Writer S V × List (Request S R V))
unfolding latch fail_all
doomed batch op cause at w =
    let fe : FatalError = record { op = op; cause = cause; at = at; batch = length batch } in
    let w = record (latch fe w) { rw_open = false } in
    fail_all (commit_unknown op cause) batch >>= λ batch. ok (w, batch)

-- The send to evCh, which drops the events when it is full.
unfoldable pub fan_out : {S V : Type 0} → List V → Writer S V → Writer S V
fan_out [] w = w
fan_out (v ∷ vs) w =
    if ltb (length w.ev_ch) event_buffer_batches
    then record w { ev_ch = w.ev_ch ++ ((v ∷ vs) ∷ []) }
    else w

module _ {S T R V : Type 0} (db : Database S T) where
  -- One command behind its savepoint, after its body has answered.
  unfoldable pub answered :
      ℕ → Request S R V → T → Result Failure (R × List V) → Result Halt (T × Request S R V × List V)
  unfolding is_cmd_error close_done
  answered i r tx (ok (res, evs)) = map_err (fault op_release) (db.release i tx) >>= λ tx.
      ok (tx, record r { res = some res }, evs)
  answered i r tx (err e) =
      if not (is_cmd_error e)
      then err (fault op_apply e)
      else map_err (fault op_rollback_to) (db.rollback_to i tx) >>= λ tx.
          map_err (fault op_release) (db.release i tx) >>= λ tx.
          map_err panics (close_done (record r { error = some (rejection e) })) >>= λ r.
          ok (tx, r, [])

  unfoldable pub apply_request :
      ℕ → Time → T → Request S R V → Result Halt (T × Request S R V × List V)
  unfolding apply_command answered
  apply_request i now tx r = map_err (fault op_savepoint) (db.savepoint i tx) >>= λ tx.
      let (s, answer) = apply_command r.cmd (db.view tx) now in answered i r (db.write s tx) answer

  -- What the loop goes on with after one command.
  abbrev pub go_on :
      Request S R V
      → List (Request S R V)
      → Result Halt (T × Request S R V × List V)
      → (T → List (Request S R V) × Result Halt (T × List V))
      → List (Request S R V) × Result Halt (T × List V)
  go_on r rs (err h) next = (r ∷ rs, err h)
  go_on r rs (ok (tx, r', evs)) next =
      let (rs, ended) = next tx in (r' ∷ rs, ended >>= λ (tx, more). ok (tx, evs ++ more))

  -- The loop over the batch: the requests as it leaves them, and how it ends.
  unfoldable pub apply_all :
      ℕ → Time → T → List (Request S R V) → List (Request S R V) × Result Halt (T × List V)
  unfolding apply_request
  apply_all i now tx [] = ([], ok (tx, []))
  apply_all i now tx (r ∷ rs) =
      go_on r rs (apply_request i now tx r) (λ tx. apply_all (suc i) now tx rs)

  -- After COMMIT: the replies, then the events.
  abbrev pub after_commit :
      Time
      → Writer S V
      → List (Request S R V)
      → List V
      → Option Failure
      → Result Panic (Writer S V × List (Request S R V))
  after_commit at w batch evs (some cause) = doomed batch op_commit cause at w
  after_commit at w batch evs none = reply_all batch >>= λ batch. ok (fan_out evs w, batch)

  -- What follows the loop.
  unfoldable pub finish :
      Time
      → Writer S V
      → List (Request S R V)
      → Result Halt (T × List V)
      → Result Panic (Writer S V × List (Request S R V))
  unfolding doomed reply_all fan_out
  finish at w batch (err (fault op cause)) = doomed batch op cause at w
  finish at w batch (err (panics p)) = err p
  finish at w batch (ok (tx, evs)) =
      let (after, failed) = db.commit w.store tx in
      after_commit at (record w { store = after }) batch evs failed

  abbrev pub begun :
      Time
      → Time
      → Writer S V
      → List (Request S R V)
      → Result Failure T
      → Result Panic (Writer S V × List (Request S R V))
  begun now at w batch (err cause) = doomed batch op_begin cause at w
  begun now at w batch (ok tx) =
      let (batch, ended) = apply_all 0 now tx batch in finish at w batch ended

  abbrev pub dispatch :
      Time
      → Time
      → Writer S V
      → List (Request S R V)
      → Option FatalError
      → Result Panic (Writer S V × List (Request S R V))
  dispatch clock at w batch (some fe) =
      fail_all (writer_latched fe) batch >>= λ batch. ok (w, batch)
  dispatch clock at w batch none =
      let (w, now) = batch_now w clock in begun now at w batch (db.begin w.store)

  -- `clock` and `at` are the clock's answers to batchNow and to the teardown.
  unfoldable pub commit_batch :
      Time
      → Time
      → Writer S V
      → List (Request S R V)
      → Result Panic (Writer S V × List (Request S R V))
  unfolding fail_all batch_now apply_all finish doomed
  commit_batch clock at w batch = dispatch clock at w batch w.latched
