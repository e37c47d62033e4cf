-- ===== src/Store/Writer/Loop.antt =====
-- The loop of commitBatch (internal/store/writer.go) against the batch's promise.
use messq.Common.{
  ℕ, suc, ◌≡◌, refl, sym, ap, ◌∙◌, List, [], length, ◌∷◌, ◌++◌, true, false, not, some, Result, ok,
  err, ◌>>=◌, map_err, arith, if_both,
}
use messq.Queue.Types.{Time}
use messq.Store.Writer.Command.{Failure, is_cmd_error, apply_command}
use messq.Store.Writer.Database.{Database, IsAtomic}
use messq.Store.Writer.Commit.{
  Request, rejection, Op, Halt, fault, panics, close_done, reply_all, answered, apply_request,
  go_on, apply_all, op_release, op_rollback_to, op_savepoint,
}
use messq.Store.Writer.Serial.{
  Served, serve, serial, AllFresh, any_rejected, any_done, Fresh-not_done, length-answers,
}

module _ {S T R V : Type 0} (db : Database S T) (atomic : IsAtomic db) where
  -- One command behind its savepoint: nothing else than an accepted body, a rejected one, or a fault.
  abbrev pub Steps :
      T
      → Request S R V
      → S × Result Failure (R × List V)
      → Result Halt (T × Request S R V × List V)
      → Type 0
  Steps tx r (s, ok (res, evs)) (ok (tx', r', evs')) =
      (db.view tx' ≡ s) × (r' ≡ record r { res = some res }) × (evs' ≡ evs)
  Steps tx r (s, err e) (ok (tx', r', evs')) =
      (db.view tx' ≡ db.view tx)
      × (r' ≡ record r { error = some (rejection e); done = true })
      × (evs' ≡ [])
  Steps tx r answer (err (fault op cause)) = Unit
  Steps tx r answer (err (panics p)) = ⊥

  faults-Steps :
      {A : Type 0} (tx : T) (r : Request S R V) (answer : S × Result Failure (R × List V)) (op : Op)
      (call : Result Failure A) (k : A → Result Halt (T × Request S R V × List V))
      → ((a : A) → call ≡ ok a → Steps tx r answer (k a))
      → Steps tx r answer (map_err (fault op) call >>= k)
  faults-Steps tx r (s, ok b) op (err e) k h = tt
  faults-Steps tx r (s, err b) op (err e) k h = tt
  faults-Steps tx r answer op (ok a) k h = h a refl

  answered-Steps :
      (i : ℕ) (r : Request S R V) (tx sp : T) (s : S) (answer : Result Failure (R × List V))
      → r.done ≡ false
      → db.savepoint i tx ≡ ok sp
      → Steps tx r (s, answer) (answered db i r (db.write s sp) answer)
  unfolding answered is_cmd_error close_done
  answered-Steps i r tx sp s (ok (res, evs)) fresh saved =
      faults-Steps tx r (s, ok (res, evs)) op_release (db.release i (db.write s sp)) _
        (λ u e.
          let kept = atomic.release_view i _ u e in
          let written = atomic.write_view s sp in (kept ∙ written, refl, refl))
  answered-Steps i r tx sp s (err e) fresh saved =
      if_both (Steps tx r (s, err e)) (not e.marked) _ _ (λ _. tt)
        (λ _.
          faults-Steps tx r (s, err e) op_rollback_to (db.rollback_to i (db.write s sp)) _
            (λ u back.
              faults-Steps tx r (s, err e) op_release (db.release i u) _
                (λ v gone. rw fresh (
                  atomic.release_view i u v gone
                      ∙ atomic.rollback_view i _ u (db.view tx) (db.saved tx)
                          (atomic.write_saved s sp ∙ atomic.savepoint_saved i tx sp saved) back,
                  refl,
                  refl,
                ))))

  apply_request-Steps :
      (i : ℕ) (now : Time) (tx : T) (r : Request S R V)
      → r.done ≡ false
      → Steps tx r (apply_command r.cmd (db.view tx) now) (apply_request db i now tx r)
  unfolding apply_request
  apply_request-Steps i now tx r fresh =
      faults-Steps tx r (apply_command r.cmd (db.view tx) now) op_savepoint (db.savepoint i tx) _
        (λ sp e. rw (atomic.savepoint_view i tx sp e) (answered-Steps i r tx sp _ _ fresh e))

  abbrev pub Ends : Served S R V → List (Request S R V) → Result Halt (T × List V) → Type 0
  Ends spec rs (ok (tx, evs)) =
      (db.view tx ≡ spec.state)
      × (evs ≡ spec.events)
      × (reply_all rs ≡ ok spec.answers)
      × (any_done rs ≡ any_rejected spec.answers)
  Ends spec rs (err (fault op cause)) = Unit
  Ends spec rs (err (panics p)) = ⊥

  pub record Follows (spec : Served S R V) (loop : List (Request S R V) × Result Halt (T × List V))
      : Type 0 where
    pub rejects : any_done loop.0 ≡ true → any_rejected spec.answers ≡ true
    pub sized : length loop.0 ≡ length spec.answers
    pub ends : Ends spec loop.0 loop.1

  Ends-cons :
      (spec spec' : Served S R V) (rs : List (Request S R V)) (r r' : Request S R V) (evs : List V)
      (ended : Result Halt (T × List V))
      → spec'.state ≡ spec.state
      → spec'.events ≡ evs ++ spec.events
      → spec'.answers ≡ r' ∷ spec.answers
      → (reply_all rs ≡ ok spec.answers → reply_all (r ∷ rs) ≡ ok (r' ∷ spec.answers))
      → (any_done rs ≡ any_rejected spec.answers
          → any_done (r ∷ rs) ≡ any_rejected (r' ∷ spec.answers))
      → Ends spec rs ended
      → Ends spec' (r ∷ rs) (ended >>= λ (tx, more). ok (tx, evs ++ more))
  Ends-cons spec spec' rs r r' evs (ok (tx, more)) s e a h k (v, m, rep, left) = (
    v ∙ sym s,
    ap (λ l. evs ++ l) m ∙ sym e,
    h rep ∙ ap ok (sym a),
    k left ∙ ap any_rejected (sym a),
  )
  Ends-cons spec spec' rs r r' evs (err (fault op cause)) s e a h k ends = tt
  Ends-cons spec spec' rs r r' evs (err (panics p)) s e a h k ends = ends

  go_on-Follows :
      (tx : T) (r : Request S R V) (rs : List (Request S R V))
      (next : T → List (Request S R V) × Result Halt (T × List V)) (spec : S → Served S R V)
      → AllFresh (r ∷ rs)
      → ((s : S) → length (spec s).answers ≡ length rs)
      → ((u : T) → Follows (spec (db.view u)) (next u))
      → (answer : S × Result Failure (R × List V)) (call : Result Halt (T × Request S R V × List V))
      → Steps tx r answer call
      → Follows (serve r (db.view tx) answer spec) (go_on db r rs call next)
  unfolding reply_all close_done
  go_on-Follows tx r rs next spec (e, d, f) len ih (s, ok (res, evs)) (ok (u, r', evs'))
        (v, same, e') =
      let rest = ih u in
      rw (same, e', sym v)
        (record {
          rejects = λ h. rw e (rest.rejects (rw d at h));
          sized = ap suc rest.sized;
          ends =
              Ends-cons (spec (db.view u)) _ (next u).0 (record r { res = some res })
                (record r { res = some res; done = true }) evs (next u).1 refl refl refl
                (λ h. ground arith) (λ h. ground arith) rest.ends;
        })
  go_on-Follows tx r rs next spec (e, d, f) len ih (s, err b) (ok (u, r', evs')) (v, same, e') =
      let rest = ih u in
      let gone : Request S R V = record r { error = some (rejection b); done = true } in
      rw (same, e', sym v)
        (record {
          rejects = λ h. refl;
          sized = ap suc rest.sized;
          ends =
              Ends-cons (spec (db.view u)) _ (next u).0 gone gone [] (next u).1 refl refl refl
                (λ h. rw h refl) (λ h. refl) rest.ends;
        })
  go_on-Follows tx r rs next spec f len ih (s, ok a) (err (fault op cause)) st = record {
    rejects = λ h. absurd (Fresh-not_done (r ∷ rs) f h);
    sized = ap suc (sym (len s));
    ends = tt;
  }
  go_on-Follows tx r rs next spec f len ih (s, err a) (err (fault op cause)) st = record {
    rejects = λ h. absurd (Fresh-not_done (r ∷ rs) f h);
    sized = ap suc (sym (len (db.view tx)));
    ends = tt;
  }
  go_on-Follows tx r rs next spec f len ih (s, ok a) (err (panics p)) st = absurd st
  go_on-Follows tx r rs next spec f len ih (s, err a) (err (panics p)) st = absurd st

  pub apply_all-Follows :
      (i : ℕ) (now : Time) (tx : T) (rs : List (Request S R V))
      → AllFresh rs
      → Follows (serial now (db.view tx) rs) (apply_all db i now tx rs)
  unfolding apply_all serial reply_all
  apply_all-Follows i now tx [] f = record {
    rejects = λ h. h;
    sized = refl;
    ends = (refl, refl, refl, refl);
  }
  apply_all-Follows i now tx (r ∷ rs) f =
      go_on-Follows tx r rs _ _ f (λ s. length-answers now s rs)
        (λ u. apply_all-Follows (suc i) now u rs f.2) (apply_command r.cmd (db.view tx) now)
        (apply_request db i now tx r) (apply_request-Steps i now tx r f.1)
