-- ===== src/Queue/Retention.antt =====
-- internal/queue/retention.go: the eviction planner, blame for a blocked sweep, and the detection
-- of clock jumps.
pub mod Selection
pub mod Limits
use messq.Common.{
  ℕ, ◌-◌, ◌^◌, negsuc, ◌-ℤ◌, List, [], ◌∷◌, ◌++◌, Bool, true, false, not, ◌&&◌, ◌||◌, Option, none,
  some, Bytes, ℤ, pos, ltb_ℤ, leb_ℤ, eq_ℤ, add64, sub64, ltb, ◌==◌, if◌then◌else◌, length,
}
use messq.Queue.Types.{Duration, Time}

pub record Candidate : Type 0 where
  pub seq : ℕ
  pub size : ℤ
  pub published_at : ℤ
  pub has_delivery : Bool

pub record RetentionView : Type 0 where
  pub max_msgs : ℤ
  pub max_bytes : ℤ
  pub max_age_ms : ℤ
  pub msgs : ℤ
  pub bytes : ℤ
  pub now_ms : ℤ

pub record EvictionPlan : Type 0 where
  pub seqs : List ℕ
  pub freed_bytes : ℤ
  pub highest_deleted_seq : ℕ
  pub blocked_count : ℤ
  pub blocked_bytes : ℤ
  pub highest_blocked_seq : ℕ
  pub more : Bool

-- The variables of the loop: the plan, and what the count pass and the byte pass still want.
pub record Sweep : Type 0 where
  pub plan : EvictionPlan
  pub excess : ℤ
  pub need : ℤ

abbrev pub empty_plan : EvictionPlan
empty_plan = record {
  seqs = [];
  freed_bytes = pos 0;
  highest_deleted_seq = 0;
  blocked_count = pos 0;
  blocked_bytes = pos 0;
  highest_blocked_seq = 0;
  more = false;
}

abbrev larger : ℕ → ℕ → ℕ
larger a b = if ltb b a then a else b

abbrev pub min_ℤ : ℤ → ℤ → ℤ
min_ℤ a b = if ltb_ℤ b a then b else a

abbrev pub want_age : RetentionView → Candidate → Bool
want_age v c = ltb_ℤ (pos 0) v.max_age_ms && ltb_ℤ c.published_at (sub64 v.now_ms v.max_age_ms)

-- A candidate that a delivery row pins is counted and skipped.
unfoldable pub block : Candidate → Sweep → Sweep
block c s = record s {
  plan = record s.plan {
    blocked_count = add64 s.plan.blocked_count (pos 1);
    blocked_bytes = add64 s.plan.blocked_bytes c.size;
    highest_blocked_seq = larger c.seq s.plan.highest_blocked_seq;
  };
}

unfoldable pub select : Candidate → Sweep → Sweep
select c s =
    let left = sub64 s.need c.size in
    record {
      plan = record s.plan {
        seqs = s.plan.seqs ++ c.seq ∷ [];
        freed_bytes = add64 s.plan.freed_bytes c.size;
        highest_deleted_seq = larger c.seq s.plan.highest_deleted_seq;
      };
      excess = if ltb_ℤ (pos 0) s.excess then sub64 s.excess (pos 1) else s.excess;
      need = if ltb_ℤ left (pos 0) then pos 0 else left;
    }

-- How a round of the loop ends: with the next candidate, or by `break`.
pub data Round : Type 0 where
  go : Sweep → Round
  stop : Sweep → Round

unfoldable pub round : RetentionView → ℤ → Candidate → Sweep → Round
unfolding block select
round v batch c s =
    let s' = select c s in
    if not (want_age v c) && not (ltb_ℤ (pos 0) s.excess) && not (ltb_ℤ (pos 0) s.need)
    then go s
    else if c.has_delivery
    then go (block c s)
    else if not (want_age v c) && leb_ℤ (sub64 v.msgs (pos (length s.plan.seqs))) (pos 1)
    then stop s
    else if eq_ℤ (pos (length s'.plan.seqs)) batch
    then stop s'
    else go s'

unfoldable pub sweep_loop : RetentionView → ℤ → List Candidate → Sweep → Sweep
sweep_loop v batch [] s = s
sweep_loop v batch (c ∷ cs) s = elim (round v batch c s) [
  | go s' ↦ sweep_loop v batch cs s'
  | stop s' ↦ s'
]

-- Whether these counts break one of the active limits.
unfoldable pub still_violating : ℤ → ℤ → RetentionView → Bool
still_violating msgs bytes v =
    (ltb_ℤ (pos 0) v.max_msgs && ltb_ℤ v.max_msgs msgs)
    || (ltb_ℤ (pos 0) v.max_bytes && ltb_ℤ v.max_bytes bytes)

unfoldable pub violates_after : ℕ → ℤ → RetentionView → Bool
unfolding still_violating
violates_after n freed v = still_violating (sub64 v.msgs (pos n)) (sub64 v.bytes freed) v

-- What a limit leaves to delete; a limit of 0 is unlimited.
unfoldable pub over : ℤ → ℤ → ℤ
over limit amount = if ltb_ℤ (pos 0) limit && ltb_ℤ limit amount then sub64 amount limit else pos 0

unfoldable pub start : RetentionView → Sweep
unfolding over
start v = record {
  plan = empty_plan;
  excess = over v.max_msgs v.msgs;
  need = over v.max_bytes v.bytes;
}

-- The last statement: whether to reschedule at once.
unfoldable pub finish : RetentionView → ℤ → EvictionPlan → EvictionPlan
unfolding violates_after
finish v batch p = record p {
  more = eq_ℤ (pos (length p.seqs)) batch && violates_after (length p.seqs) p.freed_bytes v;
}

-- The statements after the first.
unfoldable pub plan_batch : List Candidate → RetentionView → ℤ → EvictionPlan
unfolding finish start
plan_batch cands v batch =
    if leb_ℤ batch (pos 0)
    then empty_plan
    else finish v batch (sweep_loop v batch cands (start v)).plan

-- The first statement makes room for min(batch, len(cands)) numbers, and panics where that is negative.
unfoldable pub plan_eviction : List Candidate → RetentionView → ℤ → Option EvictionPlan
unfolding plan_batch
plan_eviction cands v batch =
    let plan = plan_batch cands v batch in
    if ltb_ℤ (min_ℤ batch (pos (length cands))) (pos 0) then none else some plan

pub record Holder : Type 0 where
  pub consumer : Bytes
  pub seq : ℕ

-- Go's `<` on strings.
unfoldable pub bytes_lt : Bytes → Bytes → Bool
bytes_lt [] [] = false
bytes_lt [] (b ∷ t) = true
bytes_lt (a ∷ s) [] = false
bytes_lt (a ∷ s) (b ∷ t) = ltb a b || (a == b && bytes_lt s t)

-- Whether a holder is blamed before the best one so far.
unfoldable pub blamed_before : Holder → Holder → Bool
unfolding bytes_lt
blamed_before h best =
    ltb h.seq best.seq || (h.seq == best.seq && bytes_lt h.consumer best.consumer)

unfoldable pub blame_from : Holder → List Holder → Holder
unfolding blamed_before
blame_from best [] = best
blame_from best (h ∷ hs) = blame_from (if blamed_before h best then h else best) hs

unfoldable pub select_blame : List Holder → Option Holder
unfolding blame_from
select_blame [] = none
select_blame (h ∷ hs) = some (blame_from h hs)

pub record TickSample : Type 0 where
  pub wall : Time
  pub mono : Duration

pub record ClockJump : Type 0 where
  pub wall_delta : Duration
  pub mono_delta : Duration

-- Time.Sub stops at the ends of the int64 range.
abbrev saturated : ℤ → ℤ
saturated d =
    if ltb_ℤ (pos (2 ^ 63 - 1)) d
    then pos (2 ^ 63 - 1)
    else if ltb_ℤ d (negsuc (2 ^ 63 - 1))
    then negsuc (2 ^ 63 - 1)
    else d

unfoldable pub detect_clock_jump : TickSample → TickSample → Duration → ClockJump × Bool
detect_clock_jump prev cur tol =
    let wall_delta = saturated (cur.wall -ℤ prev.wall) in
    let mono_delta = sub64 cur.mono prev.mono in
    let d = sub64 wall_delta mono_delta in
    let distance = if ltb_ℤ d (pos 0) then sub64 (pos 0) d else d in
    (record { wall_delta = wall_delta; mono_delta = mono_delta }, ltb_ℤ tol distance)
