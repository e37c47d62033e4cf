-- ===== src/Queue/Retention/Limits.antt =====
-- The bounds of PlanEviction (internal/queue/retention.go): the batch, the last message, and what
-- the count pass takes.
use messq.Common.{
  ◌≡◌, List, [], ◌∷◌, true, ℤ, pos, ◌≤ℤ◌, ◌<ℤ◌, ◌-ℤ◌, sub64, sub64-eq, InI64, int_laws, eq_of_parts,
  length, length-append, arith, if_both, leb_ℤ, -ℤ_parts, parts_normal,
}
use messq.Queue.Retention.{
  Candidate, RetentionView, EvictionPlan, Sweep, Round, go, stop, round, sweep_loop, start, finish,
  empty_plan, plan_batch,
}

-- How many messages the loop has selected.
abbrev chosen : Sweep → ℤ
chosen s = pos (length s.plan.seqs)

abbrev WithinBatch : ℤ → Round → Type 0
WithinBatch batch (go s) = chosen s <ℤ batch
WithinBatch batch (stop s) = chosen s ≤ℤ batch

round-WithinBatch :
    (v : RetentionView) (batch : ℤ) (c : Candidate) (s : Sweep)
    → chosen s <ℤ batch
    → WithinBatch batch (round v batch c s)
unfolding round
round-WithinBatch v batch c s h = ground (arith, length-append s.plan.seqs (c.seq ∷ []))

after-WithinBatch :
    (v : RetentionView) (batch : ℤ) (cs : List Candidate) (r : Round)
    → WithinBatch batch r
    → ((s : Sweep) → chosen s <ℤ batch → chosen (sweep_loop v batch cs s) ≤ℤ batch)
    → chosen (elim r [ go s ↦ sweep_loop v batch cs s | stop s ↦ s ]) ≤ℤ batch
after-WithinBatch v batch cs (go s) h ih = ih s h
after-WithinBatch v batch cs (stop s) h ih = h

loop-WithinBatch :
    (v : RetentionView) (batch : ℤ) (cs : List Candidate) (s : Sweep)
    → chosen s <ℤ batch
    → chosen (sweep_loop v batch cs s) ≤ℤ batch
unfolding sweep_loop
loop-WithinBatch v batch [] s h = omega arith
loop-WithinBatch v batch (c ∷ cs) s h =
    after-WithinBatch v batch cs (round v batch c s) (round-WithinBatch v batch c s h)
      (loop-WithinBatch v batch cs)

saturated :
    (v : RetentionView) (batch : ℤ) (p : EvictionPlan)
    → (finish v batch p).more ≡ true
    → pos (length p.seqs) ≡ batch
unfolding finish
saturated v batch p h = ground (arith, eq_of_parts (pos (length p.seqs)) batch)

abbrev pub WithinPlan : ℤ → EvictionPlan → Type 0
WithinPlan batch p = (pos (length p.seqs) ≤ℤ batch) × (p.more ≡ true → pos (length p.seqs) ≡ batch)

-- A plan deletes at most `batch` messages, and asks for another round only when it is that long.
pub plan_batch-le-batch :
    (cands : List Candidate) (v : RetentionView) (batch : ℤ)
    → pos 0 ≤ℤ batch
    → (pos (length (plan_batch cands v batch).seqs) ≤ℤ batch)
      × ((plan_batch cands v batch).more ≡ true
          → pos (length (plan_batch cands v batch).seqs) ≡ batch)
unfolding plan_batch
plan_batch-le-batch cands v batch h =
    if_both (WithinPlan batch) (leb_ℤ batch (pos 0)) empty_plan
      (finish v batch (sweep_loop v batch cands (start v)).plan) (λ _. (h, λ e. cc))
      λ positive. (
        loop-WithinBatch v batch cands (start v) (ground arith),
        λ asks. saturated v batch (sweep_loop v batch cands (start v)).plan asks,
      )

abbrev KeepsOne : RetentionView → Round → Type 0
KeepsOne v (go s) = chosen s <ℤ v.msgs
KeepsOne v (stop s) = chosen s <ℤ v.msgs

round-KeepsOne :
    (v : RetentionView) (batch : ℤ) (c : Candidate) (s : Sweep)
    → v.max_age_ms ≤ℤ pos 0
    → InI64 v.msgs
    → chosen s <ℤ v.msgs
    → KeepsOne v (round v batch c s)
unfolding round
round-KeepsOne v batch c s no_age fits h =
    let exact : sub64 v.msgs (chosen s) ≡ v.msgs -ℤ chosen s =
      sub64-eq v.msgs (chosen s) (omega (int_laws, parts_normal (v.msgs -ℤ chosen s))) in
    ground (arith, length-append s.plan.seqs (c.seq ∷ []), exact, -ℤ_parts v.msgs (chosen s))

after-KeepsOne :
    (v : RetentionView) (batch : ℤ) (cs : List Candidate) (r : Round)
    → KeepsOne v r
    → ((s : Sweep) → chosen s <ℤ v.msgs → chosen (sweep_loop v batch cs s) <ℤ v.msgs)
    → chosen (elim r [ go s ↦ sweep_loop v batch cs s | stop s ↦ s ]) <ℤ v.msgs
after-KeepsOne v batch cs (go s) h ih = ih s h
after-KeepsOne v batch cs (stop s) h ih = h

loop-KeepsOne :
    (v : RetentionView) (batch : ℤ) (cs : List Candidate) (s : Sweep)
    → v.max_age_ms ≤ℤ pos 0
    → InI64 v.msgs
    → chosen s <ℤ v.msgs
    → chosen (sweep_loop v batch cs s) <ℤ v.msgs
unfolding sweep_loop
loop-KeepsOne v batch [] s no_age fits h = h
loop-KeepsOne v batch (c ∷ cs) s no_age fits h =
    after-KeepsOne v batch cs (round v batch c s) (round-KeepsOne v batch c s no_age fits h)
      λ s' h'. loop-KeepsOne v batch cs s' no_age fits h'

-- With no age limit, whatever the counts and sizes, at least one message of the stream stays.
pub plan_batch-keeps_one :
    (cands : List Candidate) (v : RetentionView) (batch : ℤ)
    → v.max_age_ms ≤ℤ pos 0
    → InI64 v.msgs
    → pos 0 <ℤ v.msgs
    → pos (length (plan_batch cands v batch).seqs) <ℤ v.msgs
unfolding plan_batch
plan_batch-keeps_one cands v batch no_age fits h =
    if_both (λ (p : EvictionPlan). pos (length p.seqs) <ℤ v.msgs) (leb_ℤ batch (pos 0)) empty_plan
      (finish v batch (sweep_loop v batch cands (start v)).plan) (λ _. h)
      λ _. loop-KeepsOne v batch cands (start v) no_age fits h
