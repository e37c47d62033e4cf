-- ===== src/Store/Writer/Assemble.antt =====
-- run, takeBatch and commitSolo (internal/store/writer.go): how the writer forms its batches.
use messq.Common.{
  ℕ, zero, suc, ◌+◌, ◌*◌, List, [], ◌∷◌, ◌++◌, take, drop, false, not, ◌||◌, Option, none, some,
  Result, ok, err, ◌>>=◌, ℤ, pos, ltb_ℤ, leb_ℤ, if◌then◌else◌, codes, require,
}
use messq.Errs.{bad_request}
use messq.Queue.Types.{Error, sentinel, Time, Duration, second}
use messq.Store.Writer.Command.{Failure, is_solo}
use messq.Store.Writer.Database.{Database}
use messq.Store.Writer.Commit.{
  Request, rejection, Panic, Writer, close_done, batch_now, fan_out, commit_batch,
}

pub record Config : Type 0 where
  pub commit_window : Duration
  pub commit_max_batch : ℤ
  pub commit_max_bytes : ℤ
  pub queue_depth : ℤ
  pub fatal_drain : Duration

abbrev default_to : ℤ → ℤ → ℤ
default_to d v = if leb_ℤ v (pos 0) then d else v

-- The defaults are filled in even where the window is refused.
unfoldable pub fill_defaults : Config → Config × Result Error (Unit {0})
fill_defaults c = (
  record c {
    commit_max_batch = default_to (pos 256) c.commit_max_batch;
    commit_max_bytes = default_to (pos (8 * 1_048_576)) c.commit_max_bytes;
    queue_depth = default_to (pos 2048) c.queue_depth;
    fatal_drain = default_to (pos (2 * second)) c.fatal_drain;
  },
  require (not (ltb_ℤ c.commit_window (pos 0))) (sentinel bad_request),
)

-- What database/sql answers on a closed pool.
abbrev pub sql_closed : Failure
sql_closed = record { wraps = []; text = codes "sql: database is closed"; marked = false }

abbrev pub no_solo : Failure
no_solo = record { wraps = []; text = codes "does not implement Solo"; marked = false }

-- What one turn of the writer's loop runs.
pub data Group (S R V : Type 0) : Type 0 where
  alone : Request S R V → Group S R V
  batch : List (Request S R V) → Group S R V

module _ {S R V : Type 0} where
  -- The commands taken after the first, the one that is held for the next turn, and what is left in
  -- the channel. The sizes are those of values in memory, whose sum is far below 2^63.
  unfoldable pub fill :
      Config
      → ℕ
      → ℕ
      → List (Request S R V)
      → List (Request S R V) × Option (Request S R V) × List (Request S R V)
  unfolding is_solo
  fill cfg count bytes [] = ([], none, [])
  fill cfg count bytes (r ∷ queue) =
      let more = fill cfg (suc count) (bytes + r.cmd.bytes) queue in
      if not (ltb_ℤ (pos count) cfg.commit_max_batch)
      then ([], none, r ∷ queue)
      else if is_solo r.cmd || ltb_ℤ cfg.commit_max_bytes (pos (bytes + r.cmd.bytes))
      then ([], some r, queue)
      else (r ∷ more.0, more.1, more.2)

  -- `arrived` is how many commands of the channel come before the `default` of the loop without a
  -- window, or before the deadline of the loop with one.
  unfoldable pub take_batch :
      Config
      → ℕ
      → Request S R V
      → List (Request S R V)
      → List (Request S R V) × Option (Request S R V) × List (Request S R V)
  unfolding fill
  take_batch cfg arrived first queue =
      let (more, held, rest) = fill cfg 1 first.cmd.bytes (take arrived queue) in
      (first ∷ more, held, rest ++ drop arrived queue)

  abbrev pub assembled :
      List (Request S R V) × Option (Request S R V) × List (Request S R V)
      → Option (Group S R V × Option (Request S R V) × List (Request S R V))
  assembled (b, held, rest) = some (batch b, held, rest)

  -- One turn: from the command that is held and the channel to those of the next turn. There is none
  -- when the writer is stopped and the channel is drained.
  unfoldable pub turn :
      Config
      → ℕ
      → Option (Request S R V)
      → List (Request S R V)
      → Option (Group S R V × Option (Request S R V) × List (Request S R V))
  unfolding is_solo take_batch
  turn cfg arrived (some held) queue =
      if is_solo held.cmd
      then some (alone held, none, queue)
      else assembled (take_batch cfg arrived held queue)
  turn cfg arrived none [] = none
  turn cfg arrived none (r ∷ queue) =
      if is_solo r.cmd
      then some (alone r, none, queue)
      else assembled (take_batch cfg arrived r queue)

  unfoldable pub solo_ended :
      Request S R V
      → Writer S V
      → S × Result Failure (R × List V)
      → Result Panic (Writer S V × List (Request S R V))
  unfolding close_done fan_out
  solo_ended r w (after, err e) = close_done (record r { error = some (rejection e) }) >>= λ r.
      ok (record w { store = after }, r ∷ [])
  solo_ended r w (after, ok (res, evs)) = close_done (record r { res = some res }) >>= λ r.
      ok (fan_out evs (record w { store = after }), r ∷ [])

  unfoldable pub apply_solo :
      Time
      → Writer S V
      → Request S R V
      → Option (S → Time → S × Result Failure (R × List V))
      → Result Panic (Writer S V × List (Request S R V))
  unfolding solo_ended close_done
  apply_solo now w r none =
      close_done (record r { error = some (rejection no_solo) }) >>= λ r. ok (w, r ∷ [])
  apply_solo now w r (some body) =
      solo_ended r w (if w.rw_open then body w.store now else (w.store, err sql_closed))

  unfoldable pub commit_solo :
      Time → Writer S V → Request S R V → Result Panic (Writer S V × List (Request S R V))
  unfolding batch_now apply_solo
  commit_solo clock w r = let (w, now) = batch_now w clock in apply_solo now w r r.cmd.solo

module _ {S T R V : Type 0} (db : Database S T) where
  unfoldable pub run_group :
      Time → Writer S V → Group S R V → Result Panic (Writer S V × List (Request S R V))
  unfolding commit_solo commit_batch
  run_group clock w (alone r) = commit_solo clock w r
  run_group clock w (batch rs) = commit_batch db clock clock w rs

  abbrev pub carry_on :
      Time
      → Writer S V
      → Option (Group S R V × Option (Request S R V) × List (Request S R V))
      → (Writer S V
          → Option (Request S R V)
          → List (Request S R V)
          → Result Panic (Writer S V × List (Request S R V)))
      → Result Panic (Writer S V × List (Request S R V))
  carry_on clock w none next = ok (w, [])
  carry_on clock w (some (group, held, queue)) next = run_group clock w group >>= λ (w, answered).
      next w held queue >>= λ (w, later). ok (w, answered ++ later)

  -- The loop until the channel is drained, on fuel. Turn `n`, counted down, has its own reading of
  -- the clock, and its own count of commands that arrive in time.
  unfoldable pub run :
      Config
      → (clock : ℕ → Time) (arrived : ℕ → ℕ) (fuel : ℕ) → Writer S V
      → Option (Request S R V)
      → List (Request S R V)
      → Result Panic (Writer S V × List (Request S R V))
  unfolding turn run_group
  run cfg clock arrived zero w held queue = ok (w, [])
  run cfg clock arrived (suc n) w held queue =
      carry_on (clock n) w (turn cfg (arrived n) held queue)
        (λ w held queue. run cfg clock arrived n w held queue)
