-- ===== src/Store/Writer/Database.antt =====
-- database/sql over SQLite, as the writer uses it: one transaction with named savepoints.
use messq.Common.{ℕ, ◌≡◌, ◌⊎◌, List, ◌∷◌, Option, none, Result, ok}
use messq.Store.Writer.Command.{Failure}

-- The calls that the writer makes. `S` is the contents of the database, `T` a transaction; `view` is
-- what a command body reads in it, and `write` the statements of a body. Savepoint `i` is `"s" + i`.
pub record Database (S T : Type 0) : Type 0 where
  pub begin : S → Result Failure T
  pub savepoint : ℕ → T → Result Failure T
  pub release : ℕ → T → Result Failure T
  pub rollback_to : ℕ → T → Result Failure T
  pub commit : S → T → S × Option Failure
  pub view : T → S
  pub write : S → T → T
  pub saved : T → List (ℕ × S)

-- What SQLite documents of those calls that do not fail; and a failed commit has had either the
-- whole effect or none.
pub record IsAtomic {S T : Type 0} (db : Database S T) : Type 0 where
  pub begin_view : (s : S) (t : T) → db.begin s ≡ ok t → db.view t ≡ s
  pub savepoint_view : (i : ℕ) (t u : T) → db.savepoint i t ≡ ok u → db.view u ≡ db.view t
  pub savepoint_saved :
      (i : ℕ) (t u : T) → db.savepoint i t ≡ ok u → db.saved u ≡ (i, db.view t) ∷ db.saved t
  pub release_view : (i : ℕ) (t u : T) → db.release i t ≡ ok u → db.view u ≡ db.view t
  pub rollback_view :
      (i : ℕ) (t u : T) (s : S) (rest : List (ℕ × S))
      → db.saved t ≡ (i, s) ∷ rest
      → db.rollback_to i t ≡ ok u
      → db.view u ≡ s
  pub write_view : (s : S) (t : T) → db.view (db.write s t) ≡ s
  pub write_saved : (s : S) (t : T) → db.saved (db.write s t) ≡ db.saved t
  pub commit_done : (s : S) (t : T) → (db.commit s t).1 ≡ none → (db.commit s t).0 ≡ db.view t
  pub commit_failed : (s : S) (t : T) → ((db.commit s t).0 ≡ s) ⊎ ((db.commit s t).0 ≡ db.view t)
