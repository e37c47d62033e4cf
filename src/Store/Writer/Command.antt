-- ===== src/Store/Writer/Command.antt =====
-- The commands that the writer applies, and how a failure of one is judged (writer.go, commands.go).
use messq.Common.{
  ℕ, List, [], ◌∷◌, ◌++◌, Bool, true, false, ◌||◌, Option, none, some, Result, err, Bytes, codes,
  if◌then◌else◌, ◌==◌,
}
use messq.Errs.{
  Sentinel, rank, not_found, conflict, bad_request, bad_subject, too_large, stream_full,
}
use messq.Queue.Types.{Time}

-- A Go error: the sentinels that errors.Is finds in it, its text, and whether errors.As finds the
-- mark CmdError in it.
pub record Failure : Type 0 where
  pub wraps : List Sentinel
  pub text : Bytes
  pub marked : Bool

unfoldable pub domain_sentinels : List Sentinel
domain_sentinels = not_found ∷ conflict ∷ bad_request ∷ bad_subject ∷ too_large ∷ stream_full ∷ []

abbrev pub same_sentinel : Sentinel → Sentinel → Bool
same_sentinel a b = rank a == rank b

-- errors.Is against one sentinel
abbrev pub is : List Sentinel → Sentinel → Bool
is [] s = false
is (w ∷ ws) s = same_sentinel w s || is ws s

abbrev pub any_is : List Sentinel → List Sentinel → Bool
any_is wraps [] = false
any_is wraps (s ∷ ss) = is wraps s || any_is wraps ss

unfoldable pub is_domain_error : Failure → Bool
unfolding domain_sentinels
is_domain_error e = any_is e.wraps domain_sentinels

unfoldable pub is_cmd_error : Failure → Bool
is_cmd_error e = e.marked

unfoldable pub cmd_err : Failure → Failure
cmd_err e = record e { marked = true }

unfoldable pub maybe_cmd_err : Failure → Failure
unfolding cmd_err is_domain_error
maybe_cmd_err e = if is_domain_error e then cmd_err e else e

-- How a command body ends: it returns, or it panics.
pub data Ending (R V : Type 0) : Type 0 where
  returned : Result Failure (R × List V) → Ending R V
  panicked : Bytes → Ending R V

-- A command over the contents `S` of the database. A body writes before it fails, too: it gives the
-- contents that it leaves in the transaction. `solo` is ApplySolo, of the commands that have it.
pub record Cmd (S R V : Type 0) : Type 0 where
  pub kind : Bytes
  pub apply : S → Time → S × Ending R V
  pub bytes : ℕ
  pub solo : Option (S → Time → S × Result Failure (R × List V))

unfoldable pub is_solo : {S R V : Type 0} → Cmd S R V → Bool
is_solo c = elim c.solo [ none ↦ false | some run ↦ true ]

recovered : {R V : Type 0} → Bytes → Ending R V → Result Failure (R × List V)
recovered kind (returned r) = r
recovered kind (panicked p) = err (record {
  wraps = [];
  text = codes "panic in " ++ (kind ++ (codes " apply: " ++ p));
  marked = false;
})

unfoldable pub apply_command :
    {S R V : Type 0} → Cmd S R V → S → Time → S × Result Failure (R × List V)
unfolding recovered
apply_command c s now = let (after, ended) = c.apply s now in (after, recovered c.kind ended)
