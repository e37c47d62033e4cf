-- ===== src/Queue/Retention/Selection.antt =====
-- Which candidates PlanEviction (internal/queue/retention.go) selects.
use messq.Common.{
  ℕ, ◌≡◌, ◌⊎◌, refl, ◌∙◌, inl, inr, List, [], ◌∷◌, ◌++◌, append-nil, append_assoc, false, ℤ, pos,
  add64, arith, if_both, leb_ℤ, ltb_ℤ, ◌<ℤ◌, length, Option, none, some,
}
use messq.Queue.Retention.Limits.{WithinPlan, plan_batch-le-batch}
use messq.Queue.Retention.{
  Candidate, RetentionView, EvictionPlan, Sweep, Round, go, stop, round, sweep_loop, start, finish,
  empty_plan, min_ℤ, plan_batch, plan_eviction,
}

-- Some of the candidates, in their order, none of them pinned by a delivery.
pub data IsSelection : List Candidate → List Candidate → Type 0 where
  done : {cs : List Candidate} → IsSelection cs []
  skip : {c : Candidate} {cs ps : List Candidate} → IsSelection cs ps → IsSelection (c ∷ cs) ps
  take :
      {c : Candidate} {cs ps : List Candidate}
      → c.has_delivery ≡ false
      → IsSelection cs ps
      → IsSelection (c ∷ cs) (c ∷ ps)

abbrev pub seqs_of : List Candidate → List ℕ
seqs_of [] = []
seqs_of (c ∷ cs) = c.seq ∷ seqs_of cs

-- The sizes, added up from the left.
abbrev pub bytes_from : ℤ → List Candidate → ℤ
bytes_from sum [] = sum
bytes_from sum (c ∷ cs) = bytes_from (add64 sum c.size) cs

abbrev state_of : Round → Sweep
state_of (go s) = s
state_of (stop s) = s

-- What a round does to the selection: nothing, or it takes its candidate.
abbrev Effect : Candidate → Sweep → Sweep → Type 0
Effect c s s' =
    ((s'.plan.seqs ≡ s.plan.seqs) × (s'.plan.freed_bytes ≡ s.plan.freed_bytes))
    ⊎ ((c.has_delivery ≡ false)
        × (s'.plan.seqs ≡ s.plan.seqs ++ c.seq ∷ [])
        × (s'.plan.freed_bytes ≡ add64 s.plan.freed_bytes c.size))

round-Effect :
    (v : RetentionView) (batch : ℤ) (c : Candidate) (s : Sweep)
    → Effect c s (state_of (round v batch c s))
unfolding round
round-Effect v batch c s = ground arith

-- What the rest of the loop adds to the selection.
record Added (cs : List Candidate) (s s' : Sweep) : Type 0 where
  picked : List Candidate
  is_selection : IsSelection cs picked
  seqs_added : s'.plan.seqs ≡ s.plan.seqs ++ seqs_of picked
  bytes_added : s'.plan.freed_bytes ≡ bytes_from s.plan.freed_bytes picked

nothing-Added : (cs : List Candidate) (s : Sweep) → Added cs s s
nothing-Added cs s = record {
  picked = [];
  is_selection = done;
  seqs_added = rw append-nil;
  bytes_added = refl;
}

after-Effect :
    (c : Candidate) (cs : List Candidate) (s s' t : Sweep)
    → Effect c s s'
    → Added cs s' t
    → Added (c ∷ cs) s t
after-Effect c cs s s' t (inl (same, same_bytes)) a = record {
  picked = a.picked;
  is_selection = skip a.is_selection;
  seqs_added = rw (← same) a.seqs_added;
  bytes_added = rw (← same_bytes) a.bytes_added;
}
after-Effect c cs s s' t (inr (free, more, more_bytes)) a = record {
  picked = c ∷ a.picked;
  is_selection = take free a.is_selection;
  seqs_added = a.seqs_added ∙ rw (more, append_assoc);
  bytes_added = rw (← more_bytes) a.bytes_added;
}

after_round :
    (v : RetentionView) (batch : ℤ) (c : Candidate) (cs : List Candidate) (s : Sweep) (r : Round)
    → Effect c s (state_of r)
    → ((s' : Sweep) → Added cs s' (sweep_loop v batch cs s'))
    → Added (c ∷ cs) s (elim r [ go s' ↦ sweep_loop v batch cs s' | stop s' ↦ s' ])
after_round v batch c cs s (go s') e ih = after-Effect c cs s s' _ e (ih s')
after_round v batch c cs s (stop s') e ih = after-Effect c cs s s' s' e (nothing-Added cs s')

loop-Added :
    (v : RetentionView) (batch : ℤ) (cs : List Candidate) (s : Sweep)
    → Added cs s (sweep_loop v batch cs s)
unfolding sweep_loop
loop-Added v batch [] s = nothing-Added [] s
loop-Added v batch (c ∷ cs) s =
    after_round v batch c cs s (round v batch c s) (round-Effect v batch c s)
      (loop-Added v batch cs)

-- A plan that deletes some of the candidates, in their order, and reports just their bytes.
abbrev pub Deletes : List Candidate → EvictionPlan → Type 0
Deletes cands p =
    (picked : List Candidate) × IsSelection cands picked
    × (p.seqs ≡ seqs_of picked)
    × (p.freed_bytes ≡ bytes_from (pos 0) picked)

plan_batch-Deletes :
    (cands : List Candidate) (v : RetentionView) (batch : ℤ)
    → Deletes cands (plan_batch cands v batch)
unfolding plan_batch
plan_batch-Deletes cands v batch =
    if_both (Deletes cands) (leb_ℤ batch (pos 0)) empty_plan
      (finish v batch (sweep_loop v batch cands (start v)).plan) (λ _. ([], done, refl, refl))
      λ _.
        let a = loop-Added v batch cands (start v) in
        (a.picked, a.is_selection, a.seqs_added, a.bytes_added)

-- What the planner ends with: a panic, or a plan.
abbrev pub Plans : List Candidate → ℤ → Option EvictionPlan → Type 0
Plans cands batch none = batch <ℤ pos 0
Plans cands batch (some p) = Deletes cands p × WithinPlan batch p

-- For a batch from 0 on there is a plan. It deletes some of the candidates, in their order, never one
-- that a delivery row pins, and no more than the batch; the bytes that it reports as freed are those of
-- the candidates deleted, and it asks for another round only if it has filled the batch. For a negative
-- batch the planner panics.
pub plan_eviction-IsSelection :
    (cands : List Candidate) (v : RetentionView) (batch : ℤ)
    → Plans cands batch (plan_eviction cands v batch)
unfolding plan_eviction
plan_eviction-IsSelection cands v batch =
    if_both (Plans cands batch) (ltb_ℤ (min_ℤ batch (pos (length cands))) (pos 0)) none
      (some (plan_batch cands v batch)) (λ panics. ground arith)
      (λ room. (plan_batch-Deletes cands v batch, plan_batch-le-batch cands v batch (ground arith)))
