-- ===== src/Store/Writer/Crash.antt =====
-- failAll (internal/store/writer.go) after a rejection: the callers that have left are answered again.
use messq.Common.{
  ◌≡◌, refl, inl, inr, ap, ◌∙◌, List, [], ◌∷◌, true, none, some, ok, err, Bool-cases, subst,
}
use messq.Queue.Types.{Time}
use messq.Store.Writer.Command.{Failure}
use messq.Store.Writer.Database.{Database, IsAtomic}
use messq.Store.Writer.Commit.{
  Request, ReplyError, commit_unknown, Op, op_commit, close_of_closed_channel, Writer, close_done,
  fail_all, batch_now, doomed, apply_all, after_commit, finish, begun, dispatch, commit_batch,
}
use messq.Store.Writer.Serial.{serial, AllFresh, any_rejected, any_done}
use messq.Store.Writer.Loop.{Ends, apply_all-Follows}

module _ {S R V : Type 0} where
  fail_all-crash :
      (e : ReplyError) (rs : List (Request S R V))
      → any_done rs ≡ true
      → fail_all e rs ≡ err close_of_closed_channel
  unfolding fail_all close_done
  fail_all-crash e [] h = cc
  fail_all-crash e (r ∷ rs) h = elim (Bool-cases r.done) [
    | inl closed ↦ rw closed refl
    | inr not_yet ↦ rw (not_yet, fail_all-crash e rs (rw not_yet at h)) refl
  ]

  doomed-crash :
      (rs : List (Request S R V)) (op : Op) (cause : Failure) (at : Time) (v : Writer S V)
      → any_done rs ≡ true
      → doomed rs op cause at v ≡ err close_of_closed_channel
  unfolding doomed
  doomed-crash rs op cause at v h = rw (fail_all-crash (commit_unknown op cause) rs h) refl

module _ {S T R V : Type 0} (db : Database S T) (atomic : IsAtomic db) where
  -- A commit that fails after a command of the batch was rejected ends in a panic of the writer's
  -- goroutine: the rejected caller's channel is closed a second time.
  pub commit_batch-crash :
      (clock at : Time) (w : Writer S V) (batch : List (Request S R V)) (tx u : T) (evs : List V)
      (cause : Failure)
      → w.latched ≡ none
      → AllFresh batch
      → db.begin w.store ≡ ok tx
      → (apply_all db 0 (batch_now w clock).1 tx batch).1 ≡ ok (u, evs)
      → (db.commit w.store u).1 ≡ some cause
      → any_rejected (serial (batch_now w clock).1 w.store batch).answers ≡ true
      → commit_batch db clock at w batch ≡ err close_of_closed_channel
  unfolding commit_batch finish batch_now
  commit_batch-crash clock at w batch tx u evs cause unlatched fresh began ended fails rejected =
      let now = (batch_now w clock).1 in
      let w' = (batch_now w clock).0 in
      let loop = apply_all-Follows db atomic 0 now tx batch fresh in
      let left =
        (subst (Ends db atomic (serial now (db.view tx) batch) (apply_all db 0 now tx batch).0)
          ended loop.ends).3 in
      let spec_same : serial now (db.view tx) batch ≡ serial now w.store batch =
        ap (λ s. serial now s batch) (atomic.begin_view w.store tx began) in
      let rs = (apply_all db 0 now tx batch).0 in
      let crash =
        doomed-crash rs op_commit cause at (record w' { store = (db.commit w.store u).0 })
          (left ∙ ap (λ spec. any_rejected spec.answers) spec_same ∙ rejected) in
      ap (dispatch db clock at w batch) unlatched
      ∙ ap (begun db now at w' batch) began
      ∙ ap (finish db at w' rs) ended
      ∙ ap (after_commit db at (record w' { store = (db.commit w.store u).0 }) rs evs) fails
      ∙ crash
