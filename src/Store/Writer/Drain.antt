-- ===== src/Store/Writer/Drain.antt =====
-- run (internal/store/writer.go) until the channel is drained: every caller is answered.
use messq.Common.{
  ℕ, zero, suc, ◌≤◌, ◌<◌, ◌≡◌, refl, sym, ap, subst, ◌⊎◌, inl, inr, List, [], ◌∷◌, ◌++◌, length,
  true, false, Option, none, some, Result, ok, err, ◌>>=◌, arith, Option-cases, Result-cases,
  length-append,
}
use messq.Queue.Types.{Time}
use messq.Store.Writer.Command.{Failure, apply_command}
use messq.Store.Writer.Database.{Database, IsAtomic}
use messq.Store.Writer.Commit.{
  Request, ReplyError, commit_unknown, writer_latched, Writer, Panic, close_done, batch_now,
  commit_batch,
}
use messq.Store.Writer.Serial.{Served, serve, serial, AllFresh, any_rejected, length-answers}
use messq.Store.Writer.Refinement.{AllAnswered, Outcome, commit_batch-Outcome, commit_batch-latched}
use messq.Store.Writer.Assemble.{
  Config, Group, alone, batch, turn, run, run_group, carry_on, commit_solo, solo_ended, apply_solo,
}
use messq.Store.Writer.Order.{opt_list, members, Turned, turn-Turned, IsGroup}

module _ {S R V : Type 0} where
  abbrev pub AllDone : List (Request S R V) → Type 0
  AllDone [] = Unit
  AllDone (r ∷ rs) = (r.done ≡ true) × AllDone rs

  -- Some contents of the database make one of the commands fail.
  abbrev pub AnyRejects : List (Request S R V) → Type 0
  AnyRejects [] = ⊥
  AnyRejects (r ∷ rs) =
      ((s : S) × (now : Time) × (e : Failure) × ((apply_command r.cmd s now).1 ≡ err e))
      ⊎ AnyRejects rs

  abbrev pub Drained :
      List (Request S R V) → Result Panic (Writer S V × List (Request S R V)) → Type 0
  Drained rs (ok (w, out)) = AllDone out × (length out ≡ length rs)
  Drained rs (err p) = AnyRejects rs

  AnyRejects-left : (xs ys : List (Request S R V)) → AnyRejects xs → AnyRejects (xs ++ ys)
  AnyRejects-left [] ys h = absurd h
  AnyRejects-left (x ∷ xs) ys (inl h) = inl h
  AnyRejects-left (x ∷ xs) ys (inr h) = inr (AnyRejects-left xs ys h)

  AnyRejects-right : (xs ys : List (Request S R V)) → AnyRejects ys → AnyRejects (xs ++ ys)
  AnyRejects-right [] ys h = h
  AnyRejects-right (x ∷ xs) ys h = inr (AnyRejects-right xs ys h)

  AllDone-append : (xs ys : List (Request S R V)) → AllDone xs → AllDone ys → AllDone (xs ++ ys)
  AllDone-append [] ys hx hy = hy
  AllDone-append (x ∷ xs) ys hx hy = (hx.0, AllDone-append xs ys hx.1 hy)

  AllFresh-split : (xs ys : List (Request S R V)) → AllFresh (xs ++ ys) → AllFresh xs × AllFresh ys
  AllFresh-split [] ys h = (tt, h)
  AllFresh-split (x ∷ xs) ys (e, d, h) = let (hx, hy) = AllFresh-split xs ys h in ((e, d, hx), hy)

  Drained-append :
      (xs ys : List (Request S R V)) (first : Result Panic (Writer S V × List (Request S R V)))
      (next : Writer S V → Result Panic (Writer S V × List (Request S R V)))
      → Drained xs first
      → ((w : Writer S V) → Drained ys (next w))
      → Drained
          (xs ++ ys)
          (first >>= λ (w, answered). next w >>= λ (w, later). ok (w, answered ++ later))
  Drained-append xs ys (err p) next h k = AnyRejects-left xs ys h
  Drained-append xs ys (ok (w, out)) next (all, len) k =
      let rest = k w in
      elim (Result-cases (next w)) [
        | inl ((v, later), e) ↦
            let (all', len') = rw e at rest in
            rw e (AllDone-append out later all all', omega (arith, length-append {0}, len, len'))
        | inr (p, e) ↦ rw e (AnyRejects-right xs ys (rw e at rest))
      ]

  AllAnswered-AllDone : (e : ReplyError) (rs : List (Request S R V)) → AllAnswered e rs → AllDone rs
  AllAnswered-AllDone e [] h = tt
  AllAnswered-AllDone e (r ∷ rs) (a, d, h) = (d, AllAnswered-AllDone e rs h)

  serve-rejects :
      (now : Time) (s : S) (r : Request S R V) (rs : List (Request S R V))
      (answer : S × Result Failure (R × List V)) (next : S → Served S R V)
      → apply_command r.cmd s now ≡ answer
      → r.error ≡ none
      → ((s : S) → any_rejected (next s).answers ≡ true → AnyRejects rs)
      → any_rejected (serve r s answer next).answers ≡ true
      → AnyRejects (r ∷ rs)
  serve-rejects now s r rs (after, ok (res, evs)) next same e ih h = inr (ih after (rw e at h))
  serve-rejects now s r rs (after, err f) next same e ih h = inl (s, now, f, ap (λ a. a.1) same)

  serial-rejects :
      (now : Time) (s : S) (rs : List (Request S R V))
      → AllFresh rs
      → any_rejected (serial now s rs).answers ≡ true
      → AnyRejects rs
  unfolding serial
  serial-rejects now s [] f h = cc
  serial-rejects now s (r ∷ rs) (e, d, f) h =
      serve-rejects now s r rs (apply_command r.cmd s now) (λ u. serial now u rs) refl e
        (λ u. serial-rejects now u rs f) h

  serve-AllDone :
      (r : Request S R V) (s : S) (answer : S × Result Failure (R × List V))
      (next : S → Served S R V)
      → ((s : S) → AllDone (next s).answers)
      → AllDone (serve r s answer next).answers
  serve-AllDone r s (after, ok (res, evs)) next h = (refl, h after)
  serve-AllDone r s (after, err e) next h = (refl, h s)

  serial-AllDone :
      (now : Time) (s : S) (rs : List (Request S R V)) → AllDone (serial now s rs).answers
  unfolding serial
  serial-AllDone now s [] = tt
  serial-AllDone now s (r ∷ rs) =
      serve-AllDone r s (apply_command r.cmd s now) (λ u. serial now u rs)
        (λ u. serial-AllDone now u rs)

  solo_ended-Drained :
      (r : Request S R V) (w : Writer S V) (answer : S × Result Failure (R × List V))
      → r.done ≡ false
      → Drained (r ∷ []) (solo_ended r w answer)
  unfolding solo_ended close_done
  solo_ended-Drained r w (after, ok (res, evs)) fresh = rw fresh ((refl, tt), refl)
  solo_ended-Drained r w (after, err e) fresh = rw fresh ((refl, tt), refl)

  apply_solo-Drained :
      (now : Time) (w : Writer S V) (r : Request S R V)
      (body : Option (S → Time → S × Result Failure (R × List V)))
      → r.done ≡ false
      → Drained (r ∷ []) (apply_solo now w r body)
  unfolding apply_solo close_done
  apply_solo-Drained now w r none fresh = rw fresh ((refl, tt), refl)
  apply_solo-Drained now w r (some body) fresh = solo_ended-Drained r w _ fresh

module _ {S T R V : Type 0} (db : Database S T) (atomic : IsAtomic db) where
  Outcome-Drained :
      (w : Writer S V) (now : Time) (rs : List (Request S R V))
      (ended : Result Panic (Writer S V × List (Request S R V)))
      → AllFresh rs
      → Outcome w now (serial now w.store rs) (length rs) ended
      → Drained rs ended
  Outcome-Drained w now rs (ok (w', out)) fresh (inl (same, answers)) =
      rw answers (serial-AllDone now w.store rs, length-answers now w.store rs)
  Outcome-Drained w now rs (ok (w', out)) fresh (inr lost) = (
    AllAnswered-AllDone (commit_unknown lost.fatal.op lost.fatal.cause) out lost.unknown,
    lost.everyone,
  )
  Outcome-Drained w now rs (err p) fresh h = serial-rejects now w.store rs fresh h

  group-Drained :
      (clock : Time) (w : Writer S V) (group : Group S R V)
      → AllFresh (members group)
      → Drained (members group) (run_group db clock w group)
  unfolding run_group commit_solo
  group-Drained clock w (alone r) (e, d, f) = apply_solo-Drained _ _ r r.cmd.solo d
  group-Drained clock w (batch rs) fresh = elim (Option-cases w.latched) [
    | inl unlatched ↦
        Outcome-Drained w (batch_now w clock).1 rs (commit_batch db clock clock w rs) fresh
          (commit_batch-Outcome db atomic clock clock w rs unlatched fresh)
    | inr (fe, latched_by) ↦
        let (out, same, all, len) =
          commit_batch-latched db atomic clock clock w rs latched_by fresh in
        rw same (AllAnswered-AllDone (writer_latched fe) out all, len)
  ]

  members-opens :
      (cfg : Config) (group : Group S R V) → IsGroup cfg group → 0 < length (members group)
  members-opens cfg (alone r) h = omega arith
  members-opens cfg (batch rs) h = h.opens

  carry_on-Drained :
      (cfg : Config) (clock : Time) (n : ℕ) (w : Writer S V) (all : List (Request S R V))
      (turned : Option (Group S R V × Option (Request S R V) × List (Request S R V)))
      (next : Writer S V
        → Option (Request S R V)
        → List (Request S R V)
        → Result Panic (Writer S V × List (Request S R V)))
      → Turned cfg all turned
      → AllFresh all
      → length all ≤ suc n
      → ((v : Writer S V) (held : Option (Request S R V)) (queue : List (Request S R V))
          → AllFresh (opt_list held ++ queue)
          → length (opt_list held ++ queue) ≤ n
          → Drained (opt_list held ++ queue) (next v held queue))
      → Drained all (carry_on db clock w turned next)
  carry_on-Drained cfg clock n w all none next h fresh enough ih = rw h (tt, refl)
  carry_on-Drained cfg clock n w all (some (group, held, queue)) next h fresh enough ih =
      let rest = opt_list held ++ queue in
      let (now_fresh, later_fresh) =
        AllFresh-split (members group) rest (subst AllFresh (sym h.order) fresh) in
      let opens = members-opens cfg group h.shape in
      let sizes = length-append (members group) rest in
      let fewer : length rest ≤ n = omega (arith, ap length h.order) in
      subst (λ l. Drained l (carry_on db clock w (some (group, held, queue)) next)) h.order
        (Drained-append (members group) rest (run_group db clock w group) (λ v. next v held queue)
          (group-Drained clock w group now_fresh) (λ v. ih v held queue later_fresh fewer))

  -- Once the writer's loop has drained the channel, every command that was accepted has been
  -- answered, in as many turns as there are commands; only a command that can fail lets it panic.
  pub run-Drained :
      (cfg : Config) (clock : ℕ → Time) (arrived : ℕ → ℕ) (fuel : ℕ) (w : Writer S V)
      (held : Option (Request S R V)) (queue : List (Request S R V))
      → AllFresh (opt_list held ++ queue)
      → length (opt_list held ++ queue) ≤ fuel
      → Drained (opt_list held ++ queue) (run db cfg clock arrived fuel w held queue)
  unfolding run
  run-Drained cfg clock arrived zero w none [] fresh enough = (tt, refl)
  run-Drained cfg clock arrived zero w (some r) queue fresh enough = absurd (omega arith)
  run-Drained cfg clock arrived zero w none (r ∷ queue) fresh enough = absurd (omega arith)
  run-Drained cfg clock arrived (suc n) w held queue fresh enough =
      carry_on-Drained cfg (clock n) n w (opt_list held ++ queue) (turn cfg (arrived n) held queue)
        _ (turn-Turned cfg (arrived n) held queue) fresh enough
        (λ v h q f e. run-Drained cfg clock arrived n v h q f e)
