-- ===== src/Queue/Consumer/Horizon.antt =====
-- The retry horizon (internal/queue/consumer.go) is made of the delays of the retry schedule
-- (internal/queue/backoff.go).
use messq.Common.{
  ℕ, zero, suc, ◌+◌, ◌-◌, ◌≡◌, ◌<◌, refl, ap, ◌∙◌, List, [], ◌∷◌, pos, add64, length, arith,
  pos_part, ◌⊎◌, inl, inr, leb, if◌then◌else◌,
}
use native.Mathlib.Numerals.{add-one}
use messq.Queue.Types.{Duration, ConsumerConfig}
use messq.Queue.Backoff.{schedule_index, backoff_for}
use messq.Queue.Consumer.{horizon_loop, retry_horizon}

-- What the first `n` failures wait in all.
unfoldable pub delays_of : ConsumerConfig → ℕ → Duration
unfolding backoff_for
delays_of c zero = pos 0
delays_of c (suc n) = add64 (delays_of c n) (backoff_for c (suc n))

-- The loop's index is the schedule's, for the failure after `i`.
index-schedule_index : (n i : ℕ) → (if leb n i then n - 1 else i) ≡ schedule_index (suc i) n
unfolding schedule_index
index-schedule_index n i = ground arith

empty_cases : (ds : List Duration) → (ds ≡ []) ⊎ (0 < length ds)
empty_cases [] = inl refl
empty_cases (d ∷ ds) = inr (omega arith)

delays_of-empty : (c : ConsumerConfig) (n : ℕ) → c.backoff ≡ [] → delays_of c n ≡ pos 0
unfolding delays_of add64
delays_of-empty c zero e = refl
delays_of-empty c (suc n) e = rw (delays_of-empty c n e, e) refl

horizon_loop_lem :
    (c : ConsumerConfig) (rounds i : ℕ)
    → horizon_loop c.backoff rounds i (delays_of c i) ≡ delays_of c (i + rounds)
unfolding horizon_loop delays_of
horizon_loop_lem c zero i = ap (delays_of c) (omega arith)
horizon_loop_lem c (suc rounds) i =
    rw (add-one, index-schedule_index (length c.backoff) i)
      (horizon_loop_lem c rounds (suc i) ∙ ap (delays_of c) (omega arith))

whole_loop : (c : ConsumerConfig) (k : ℕ) → horizon_loop c.backoff k 0 (pos 0) ≡ delays_of c k
whole_loop c k = unfold delays_of in (horizon_loop_lem c k 0) ∙ ap (delays_of c) (omega arith)

-- With two or more deliveries allowed, the horizon is what the failures before the last one wait.
pub retry_horizon-eq-delays :
    (c : ConsumerConfig) (m : ℕ)
    → c.max_deliver ≡ pos (suc (suc m))
    → retry_horizon c ≡ delays_of c (suc m)
unfolding retry_horizon
retry_horizon-eq-delays c m h =
    let rounds : pos_part c.max_deliver - 1 ≡ suc m = ground arith in
    elim (empty_cases c.backoff) [
      | inl e ↦ ground (arith, delays_of-empty c (suc m) e)
      | inr some_entry ↦ ground (arith, whole_loop c (pos_part c.max_deliver - 1), rounds)
    ]
