-- ===== src/Store/Consumers/Start.antt =====
-- resolveStartPosition and what it calls (internal/store/consumer.go), and StartPosition
-- (internal/queue/consumer.go).
pub mod Range
use messq.Common.{
  ℕ, suc, List, [], ◌∷◌, ◌++◌, Bool, true, false, ◌&&◌, Option, none, some, Bytes, codes, ℤ, pos,
  negsuc, pos_part, eq_ℤ, ltb_ℤ, leb_ℤ, ltb, ◌+ℤ◌, if◌then◌else◌, Result, ok, err, ◌>>=◌,
}
use messq.Common.Decimal.{format}
use messq.Errs.{not_found, bad_request}
use messq.Queue.Types.{sentinel, Duration, Time, unix_milli}
use messq.Store.Dead.Provenance.{format_ℤ}
use messq.Store.Streams.Tables.{CommandError, refused}

pub data StartKind : Type 0 where
  start_first start_new start_seq start_time other_start : StartKind

-- `rel` takes the place of `time` unless it is zero.
pub record StartPosition : Type 0 where
  pub kind : StartKind
  pub seq : ℤ
  pub time : ℤ
  pub rel : Duration

-- `duration_text` is Duration.String.
unfoldable pub start_text : (Duration → Bytes) → StartPosition → Bytes
unfolding format
start_text duration_text s = elim s.kind [
  | start_first ↦ codes "first"
  | start_new ↦ codes "new"
  | start_seq ↦ codes "seq:" ++ format_ℤ s.seq
  | start_time ↦
      if eq_ℤ s.rel (pos 0)
      then codes "time:" ++ format_ℤ s.time
      else codes "time:" ++ duration_text s.rel
  | other_start ↦ []
]

-- A message's number and the time of its publish.
pub record Stamp : Type 0 where
  pub seq : ℕ
  pub published_at : ℤ

-- The stream's messages, in the order of their numbers, and its counter.
pub record StreamAnchors : Type 0 where
  pub stamps : List Stamp
  pub next : Option ℕ

-- The oldest message, or the head where there is none; and the head.
abbrev pub bounds : List Stamp → ℕ → ℕ × ℕ
bounds [] next = (next, next)
bounds (m ∷ ms) next = (m.seq, next)

abbrev pub stream_bounds : StreamAnchors → Option ℕ → Result CommandError (ℕ × ℕ)
stream_bounds a none = err (refused (sentinel not_found))
stream_bounds a (some next) = ok (bounds a.stamps next)

unfoldable pub clamp_cursor : ℤ → ℕ → ℕ → ℕ
clamp_cursor seq first next =
    if ltb_ℤ seq (pos first) then first else if ltb_ℤ (pos next) seq then next else pos_part seq

-- ORDER BY published_at, seq LIMIT 1, of those at `t` or later.
abbrev pub earlier : Stamp → Option Stamp → Stamp
earlier m none = m
earlier m (some x) = if ltb_ℤ x.published_at m.published_at then x else m

unfoldable pub first_at : ℤ → List Stamp → Option Stamp
first_at t [] = none
first_at t (m ∷ ms) =
    let rest = first_at t ms in if leb_ℤ t m.published_at then some (earlier m rest) else rest

unfoldable pub all_after : ℤ → List Stamp → Bool
all_after t [] = true
all_after t (m ∷ ms) = let rest = all_after t ms in if ltb_ℤ t m.published_at then rest else false

abbrev pub time_start : ℤ → List Stamp → ℕ → Option Stamp → ℕ × Bool
time_start t stamps next none = (next, false)
time_start t stamps next (some m) = (m.seq, all_after t stamps)

unfoldable pub resolve_time_start : ℤ → List Stamp → ℕ → ℕ × Bool
unfolding first_at all_after
resolve_time_start t stamps next = time_start t stamps next (first_at t stamps)

abbrev pub resolved :
    StartPosition → Time → List Stamp → ℕ × ℕ → StartKind → Result CommandError (ℕ × Bool)
resolved s now stamps (first, next) start_first = ok (first, false)
resolved s now stamps (first, next) start_new = ok (next, false)
resolved s now stamps (first, next) start_seq =
    let cursor = clamp_cursor s.seq first next in
    ok (cursor, ltb first next && ltb_ℤ s.seq (pos cursor))
resolved s now stamps (first, next) start_time = ok (
    resolve_time_start (if eq_ℤ s.rel (pos 0) then s.time else unix_milli (now +ℤ s.rel)) stamps
      next)
resolved s now stamps (first, next) other_start = err (refused (sentinel bad_request))

-- The cursor, and whether it was moved up past what is no longer there.
unfoldable pub resolve_start_position :
    StartPosition → Time → StreamAnchors → Result CommandError (ℕ × Bool)
unfolding clamp_cursor resolve_time_start unix_milli ◌+ℤ◌
resolve_start_position s now a = stream_bounds a a.next >>= λ at. resolved s now a.stamps at s.kind
