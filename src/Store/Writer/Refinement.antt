-- ===== src/Store/Writer/Refinement.antt =====
-- commitBatch (internal/store/writer.go) against the batch's promise.
use messq.Common.{
  ℕ, suc, ◌≡◌, refl, sym, ap, subst, ◌∙◌, ◌⊎◌, inl, inr, List, [], ◌∷◌, length, true, false, Option,
  none, some, Result, ok, err, ◌>>=◌, Result-cases, Bool-cases,
}
use messq.Queue.Types.{Time}
use messq.Store.Writer.Command.{Failure}
use messq.Store.Writer.Database.{Database, IsAtomic}
use messq.Store.Writer.Commit.{
  Request, ReplyError, writer_latched, commit_unknown, Op, op_begin, op_commit, Panic, Halt, fault,
  panics, Writer, FatalError, close_done, fail_all, reply_all, batch_now, latch, doomed, fan_out,
  after_commit, finish, begun, dispatch, commit_batch,
}
use messq.Store.Writer.Serial.{
  Served, serial, AllFresh, any_rejected, any_done, Fresh-not_done, length-answers,
}
use messq.Store.Writer.Loop.{Ends, apply_all-Follows}

module _ {S R V : Type 0} where
  -- Every caller has left with this error.
  abbrev pub AllAnswered : ReplyError → List (Request S R V) → Type 0
  AllAnswered e [] = Unit
  AllAnswered e (r ∷ rs) = (r.error ≡ some e) × (r.done ≡ true) × AllAnswered e rs

  abbrev pub Fails :
      ReplyError → List (Request S R V) → Result Panic (List (Request S R V)) → Type 0
  Fails e rs (ok out) = AllAnswered e out × (length out ≡ length rs)
  Fails e rs (err p) = any_done rs ≡ true

  close-Fails :
      (e : ReplyError) (r : Request S R V) (rs : List (Request S R V))
      (rest : Result Panic (List (Request S R V)))
      → Fails e rs rest
      → Fails e
          (r ∷ rs)
          (close_done (record r { error = some e }) >>= λ r. rest >>= λ rs. ok (r ∷ rs))
  unfolding close_done
  close-Fails e r rs rest h = elim (Bool-cases r.done) [
    | inl closed ↦ rw closed refl
    | inr not_yet ↦ elim (Result-cases rest) [
      | inl (out, same) ↦
          let (all, len) = rw same at h in rw (not_yet, same) ((refl, refl, all), ap suc len)
      | inr (p, same) ↦ rw (not_yet, same) (rw same at h)
    ]
  ]

  pub fail_all-Fails : (e : ReplyError) (rs : List (Request S R V)) → Fails e rs (fail_all e rs)
  unfolding fail_all
  fail_all-Fails e [] = (tt, refl)
  fail_all-Fails e (r ∷ rs) = close-Fails e r rs (fail_all e rs) (fail_all-Fails e rs)

  -- The batch is in the file, and everyone has been told so; the events are on their way.
  abbrev pub Committed :
      Writer S V → Time → Served S R V → Writer S V → List (Request S R V) → Type 0
  Committed w now spec w' rs =
      (w' ≡ fan_out spec.events (record w { store = spec.state; last_now = now }))
      × (rs ≡ spec.answers)

  -- The writer is latched and its pool closed, the file holds all of the batch or nothing of it, and
  -- no caller has been told either.
  pub record IsLost (w : Writer S V) (spec : Served S R V) (size : ℕ) (w' : Writer S V)
      (rs : List (Request S R V)) : Type 0 where
    pub fatal : FatalError
    pub is_latched : w'.latched ≡ some fatal
    pub is_closed : w'.rw_open ≡ false
    pub whole : (w'.store ≡ w.store) ⊎ (w'.store ≡ spec.state)
    pub unknown : AllAnswered (commit_unknown fatal.op fatal.cause) rs
    pub everyone : length rs ≡ size

  abbrev pub Outcome :
      Writer S V
      → Time
      → Served S R V
      → ℕ
      → Result Panic (Writer S V × List (Request S R V))
      → Type 0
  Outcome w now spec size (ok (w', rs)) = Committed w now spec w' rs ⊎ IsLost w spec size w' rs
  Outcome w now spec size (err p) = any_rejected spec.answers ≡ true

  doomed-Outcome :
      (w : Writer S V) (now : Time) (spec : Served S R V) (size : ℕ) (batch : List (Request S R V))
      (op : Op) (cause : Failure) (at : Time) (v : Writer S V)
      → (any_done batch ≡ true → any_rejected spec.answers ≡ true)
      → length batch ≡ size
      → v.latched ≡ none
      → (v.store ≡ w.store) ⊎ (v.store ≡ spec.state)
      → Outcome w now spec size (doomed batch op cause at v)
  unfolding doomed latch
  doomed-Outcome w now spec size batch op cause at v rejects same fresh whole =
      let failed = fail_all-Fails (commit_unknown op cause) batch in
      elim (Result-cases (fail_all (commit_unknown op cause) batch)) [
        | inl (out, e) ↦
            let (unknown, all) = rw e at failed in
            rw (e, fresh)
              (inr (record {
                fatal = record { op = op; cause = cause; at = at; batch = length batch };
                is_latched = refl;
                is_closed = refl;
                whole = whole;
                unknown = unknown;
                everyone = all ∙ same;
              }))
        | inr (p, e) ↦ rw e (rejects (rw e at failed))
      ]

module _ {S T R V : Type 0} (db : Database S T) (atomic : IsAtomic db) where
  after_commit-Outcome :
      (w : Writer S V) (now at : Time) (spec : Served S R V) (batch : List (Request S R V))
      (evs : List V) (after : S) (failed : Option Failure)
      → w.latched ≡ none
      → (any_done batch ≡ true → any_rejected spec.answers ≡ true)
      → length batch ≡ length spec.answers
      → evs ≡ spec.events
      → reply_all batch ≡ ok spec.answers
      → (after ≡ w.store) ⊎ (after ≡ spec.state)
      → (failed ≡ none → after ≡ spec.state)
      → Outcome w now spec
          (length spec.answers)
          (after_commit db at (record w { last_now = now; store = after }) batch evs failed)
  after_commit-Outcome w now at spec batch evs after none fresh rejects sized same replied whole
        done =
      rw (same, done refl, replied) (inl (refl, refl))
  after_commit-Outcome w now at spec batch evs after (some cause) fresh rejects sized same replied
        whole done =
      doomed-Outcome w now spec _ batch op_commit cause at _ rejects sized fresh whole

  finish-Outcome :
      (w : Writer S V) (now at : Time) (spec : Served S R V) (batch : List (Request S R V))
      (ended : Result Halt (T × List V))
      → w.latched ≡ none
      → (any_done batch ≡ true → any_rejected spec.answers ≡ true)
      → length batch ≡ length spec.answers
      → Ends db atomic spec batch ended
      → Outcome w now spec
          (length spec.answers)
          (finish db at (record w { last_now = now }) batch ended)
  unfolding finish
  finish-Outcome w now at spec batch (err (fault op cause)) fresh rejects sized ends =
      doomed-Outcome w now spec _ batch op cause at _ rejects sized fresh (inl refl)
  finish-Outcome w now at spec batch (err (panics p)) fresh rejects sized ends = absurd ends
  finish-Outcome w now at spec batch (ok (tx, evs)) fresh rejects sized
        (view, same, replied, left) =
      after_commit-Outcome w now at spec batch evs (db.commit w.store tx).0 (db.commit w.store tx).1
        fresh rejects sized same replied (rw view at (atomic.commit_failed w.store tx))
        (λ done. atomic.commit_done w.store tx done ∙ view)

  begun-Outcome :
      (w : Writer S V) (now at : Time) (batch : List (Request S R V)) (begin : Result Failure T)
      → w.latched ≡ none
      → AllFresh batch
      → db.begin w.store ≡ begin
      → Outcome w now
          (serial now w.store batch)
          (length (serial now w.store batch).answers)
          (begun db now at (record w { last_now = now }) batch begin)
  begun-Outcome w now at batch (err cause) unlatched fresh same =
      doomed-Outcome w now _ _ batch op_begin cause at _
        (λ h. absurd (Fresh-not_done batch fresh h)) (sym (length-answers now w.store batch))
        unlatched (inl refl)
  begun-Outcome w now at batch (ok tx) unlatched fresh same =
      let loop =
        rw (atomic.begin_view w.store tx same) at
          (apply_all-Follows db atomic 0 now tx batch fresh) in
      finish-Outcome w now at _ _ _ unlatched loop.rejects loop.sized loop.ends

  -- A batch of fresh requests on a writer that is not latched.
  pub commit_batch-Outcome :
      (clock at : Time) (w : Writer S V) (batch : List (Request S R V))
      → w.latched ≡ none
      → AllFresh batch
      → Outcome w
          (batch_now w clock).1
          (serial (batch_now w clock).1 w.store batch)
          (length batch)
          (commit_batch db clock at w batch)
  unfolding commit_batch batch_now
  commit_batch-Outcome clock at w batch unlatched fresh =
      let now = (batch_now w clock).1 in
      subst
        (λ first.
          Outcome w now (serial now w.store batch) (length batch)
            (dispatch db clock at w batch first))
        (sym unlatched)
        (rw (length-answers now w.store batch) at
          (begun-Outcome w now at batch (db.begin w.store) unlatched fresh refl))

  -- A latched writer touches nothing, and tells every caller what it is latched by.
  pub commit_batch-latched :
      (clock at : Time) (w : Writer S V) (batch : List (Request S R V)) {fe : FatalError}
      → w.latched ≡ some fe
      → AllFresh batch
      → (out : List (Request S R V)) × (commit_batch db clock at w batch ≡ ok (w, out))
        × AllAnswered (writer_latched fe) out
        × (length out ≡ length batch)
  unfolding commit_batch
  commit_batch-latched clock at w batch {fe} latched_by fresh =
      let failed = fail_all-Fails (writer_latched fe) batch in
      let same = ap (dispatch db clock at w batch) latched_by in
      elim (Result-cases (fail_all (writer_latched fe) batch)) [
        | inl (out, e) ↦
            let (all, len) = rw e at failed in
            (out, same ∙ ap (λ r. r >>= λ batch. ok (w, batch)) e, all, len)
        | inr (p, e) ↦ absurd (Fresh-not_done batch fresh (rw e at failed))
      ]
