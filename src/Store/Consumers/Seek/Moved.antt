-- ===== src/Store/Consumers/Seek/Moved.antt =====
-- seekCmd (internal/store/seek.go): what a seek that is not a dry run leaves.
use messq.Common.{
  ℕ, suc, ◌≡◌, refl, sym, ap, inl, inr, [], length, Bool, true, false, Option, none, some, ◌==◌, ok,
  ◌>>=◌, map_err, >>=-eq-ok, ok-inj, Bool-cases,
}
use messq.Queue.Types.{Time}
use messq.Store.Consumers.{ConsumerRow, ConsumerTables, store, with_row}
use messq.Store.Consumers.Start.{StartPosition, stream_bounds, resolve_start_position}
use messq.Store.Consumers.Seek.{
  SeekImpact, SeekResult, move_cursor, seek_impact, seek_to, seek_consumer,
}
use messq.Store.Dead.Outcome.{map_err-eq-ok}

-- The position resolved, the row moved there under a new generation, and no delivery left.
pub record IsMoved (to : StartPosition) (now : Time) (t t' : ConsumerTables) : Type 0 where
  pub from : ConsumerRow
  pub target : ℕ
  pub found : t.row ≡ some from
  pub resolves : resolve_start_position to now t.anchors ≡ ok (target, false)
  pub row : t'.row ≡ some (record from { cursor_seq = target; generation = suc from.generation })
  pub none_left : t'.deliveries ≡ []

module _ (to : StartPosition) (now : Time) (t : ConsumerTables) where
  move_cursor-after :
      (impact : SeekImpact) (r : ConsumerRow) {t' : ConsumerTables} {res : SeekResult}
      → move_cursor impact r t ≡ ok (t', res)
      → (t'.row
          ≡ some (record r { cursor_seq = impact.cursor_after; generation = suc r.generation }))
        × (t'.deliveries ≡ [])
  move_cursor-after impact r h = elim (Bool-cases (length t.deliveries == impact.pending_dropped)) [
    | inl planned ↦
        let done = ok-inj (rw planned at h) in
        (
          sym (ap (λ (p : ConsumerTables × SeekResult). p.0.row) done),
          sym (ap (λ (p : ConsumerTables × SeekResult). p.0.deliveries) done),
        )
    | inr other ↦ let wrong = rw other at h in absurd (cc)
  ]

  seek_to-IsMoved :
      (r : ConsumerRow) (at : ℕ × Bool) {t' : ConsumerTables} {res : SeekResult}
      → t.row ≡ some r
      → resolve_start_position to now t.anchors ≡ ok at
      → seek_to to false now t r at ≡ ok (t', res)
      → IsMoved to now t t'
  unfolding seek_impact
  seek_to-IsMoved r (target, true) found resolves h = absurd (cc)
  seek_to-IsMoved r (target, false) found resolves h =
      let (at, _, h) = >>=-eq-ok (map_err store (stream_bounds t.anchors t.anchors.next)) _ h in
      let (row, none_left) = move_cursor-after (seek_impact to t r target at) r h in
      record {
        from = r;
        target = target;
        found = found;
        resolves = resolves;
        row = row;
        none_left = none_left;
      }

  with_row-IsMoved :
      (found : Option ConsumerRow) {t' : ConsumerTables} {res : SeekResult}
      → t.row ≡ found
      → with_row found (λ r. map_err store (resolve_start_position to now t.anchors) >>= λ at.
          seek_to to false now t r at)
        ≡ ok (t', res)
      → IsMoved to now t t'
  with_row-IsMoved none e h = absurd (cc)
  with_row-IsMoved (some r) e h =
      let (at, resolves, h) =
        >>=-eq-ok (map_err store (resolve_start_position to now t.anchors)) _ h in
      seek_to-IsMoved r at e (map_err-eq-ok store _ resolves) h

  pub seek_consumer-IsMoved :
      (t' : ConsumerTables) (res : SeekResult)
      → seek_consumer to false now t ≡ ok (t', res)
      → IsMoved to now t t'
  unfolding seek_consumer
  seek_consumer-IsMoved t' res h = with_row-IsMoved t.row refl h
