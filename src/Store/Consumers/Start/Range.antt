-- ===== src/Store/Consumers/Start/Range.antt =====
-- resolveStartPosition (internal/store/consumer.go): the cursor that it gives.
use messq.Common.{
  ℕ, ◌≤◌, ◌<◌, ◌≡◌, refl, sym, subst, List, [], ◌∷◌, Bool, Option, none, some, ℤ, pos, negsuc, eq_ℤ,
  ltb_ℤ, leb_ℤ, ◌+ℤ◌, if◌then◌else◌, if_both, arith, All, Result, ok, err,
}
use messq.Queue.Types.{Time, unix_milli}
use messq.Store.Streams.Tables.{CommandError}
use messq.Store.Consumers.Start.{
  StartKind, StartPosition, start_first, start_new, start_seq, start_time, other_start, Stamp,
  bounds, clamp_cursor, earlier, first_at, time_start, resolve_time_start, resolved,
  resolve_start_position,
}

-- The stream's numbers are from 1 on and below its counter.
abbrev pub InStream : ℕ → List Stamp → Type 0
InStream next = All (λ (m : Stamp). (1 ≤ m.seq) × (m.seq < next))

abbrev pub InRange : ℕ → ℕ → Type 0
InRange next c = (1 ≤ c) × (c ≤ next)

bounds-InRange :
    (next : ℕ) (ms : List Stamp)
    → 1 ≤ next
    → InStream next ms
    → InRange next (bounds ms next).0 × ((bounds ms next).1 ≡ next)
bounds-InRange next [] one h = ((one, omega arith), refl)
bounds-InRange next (m ∷ ms) one ((from, to), h) = ((from, omega arith), refl)

clamp_cursor-InRange :
    (seq : ℤ) (first next : ℕ) → InRange next first → InRange next (clamp_cursor seq first next)
unfolding clamp_cursor
clamp_cursor-InRange (pos n) first next h = ground arith
clamp_cursor-InRange (negsuc n) first next h = ground arith

-- A message that a search found, if any.
abbrev Found : ℕ → Option Stamp → Type 0
Found next none = Unit
Found next (some m) = InRange next m.seq

earlier-Found :
    (next : ℕ) (x : Stamp) (rest : Option Stamp)
    → InRange next x.seq
    → Found next rest
    → InRange next (earlier x rest).seq
earlier-Found next x none here h = here
earlier-Found next x (some m) here h =
    if_both (λ (s : Stamp). InRange next s.seq) (ltb_ℤ m.published_at x.published_at) m x (λ _. h)
      (λ _. here)

first_at-Found :
    (t : ℤ) (next : ℕ) (ms : List Stamp) → InStream next ms → Found next (first_at t ms)
unfolding first_at
first_at-Found t next [] h = tt
first_at-Found t next (x ∷ ms) ((from, to), h) =
    let rest = first_at-Found t next ms h in
    if_both (Found next) (leb_ℤ t x.published_at) (some (earlier x (first_at t ms))) (first_at t ms)
      (λ _. earlier-Found next x (first_at t ms) (from, omega arith) rest) (λ _. rest)

time_start-InRange :
    (t : ℤ) (next : ℕ) (ms : List Stamp) (found : Option Stamp)
    → 1 ≤ next
    → Found next found
    → InRange next (time_start t ms next found).0
time_start-InRange t next ms none one h = (one, omega arith)
time_start-InRange t next ms (some m) one h = h

-- What a call gives, if it succeeds.
abbrev Gives : (ℕ → Type 0) → Result CommandError (ℕ × Bool) → Type 0
Gives P (ok (c, clamped)) = P c
Gives P (err e) = Unit

module _ (s : StartPosition) (now : Time) (ms : List Stamp) (next : ℕ) (one : 1 ≤ next)
    (h : InStream next ms) where
  resolve_time_start-InRange :
      (t : ℤ) (n : ℕ) → next ≡ n → InRange next (resolve_time_start t ms n).0
  unfolding resolve_time_start
  resolve_time_start-InRange t n same =
      subst (λ k. InRange next (time_start t ms k (first_at t ms)).0) same
        (time_start-InRange t next ms (first_at t ms) one (first_at-Found t next ms h))

  resolved-InRange :
      (kind : StartKind) → Gives (InRange next) (resolved s now ms (bounds ms next) kind)
  resolved-InRange start_first = (bounds-InRange next ms one h).0
  resolved-InRange start_new =
      let (_, head) = bounds-InRange next ms one h in (omega arith, omega arith)
  resolved-InRange start_seq =
      let (first, head) = bounds-InRange next ms one h in
      subst (λ n. InRange next (clamp_cursor s.seq (bounds ms next).0 n)) (sym head)
        (clamp_cursor-InRange s.seq (bounds ms next).0 next first)
  resolved-InRange start_time =
      let (_, head) = bounds-InRange next ms one h in
      let t = if eq_ℤ s.rel (pos 0) then s.time else unix_milli (now +ℤ s.rel) in
      resolve_time_start-InRange t (bounds ms next).1 (sym head)
  resolved-InRange other_start = tt

  -- Every position that is resolved lies between 1 and the head of the stream.
  pub resolve_start_position-InRange :
      (c : ℕ) (clamped : Bool)
      → resolve_start_position s now (record { stamps = ms; next = some next }) ≡ ok (c, clamped)
      → InRange next c
  unfolding resolve_start_position
  resolve_start_position-InRange c clamped e =
      subst (Gives (InRange next)) e (resolved-InRange s.kind)
