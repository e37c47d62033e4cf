-- ===== src/Store/Consumers/Seek/Rehearsal.antt =====
-- seekCmd (internal/store/seek.go): a dry run, and the run that it stands for.
use messq.Common.{
  ℕ, ◌+◌, ◌≡◌, refl, List, [], ◌∷◌, length, Bool, true, false, Option, none, some, ◌==◌, arith,
  Result, ok, err, inl, inr, Result-cases,
}
use messq.Queue.Types.{Time}
use messq.Store.Rows.{DeliveryRow}
use messq.Store.Consumers.{ConsumerRow, ConsumerTables, ConsumerError, with_row, count_inflight}
use messq.Store.Consumers.Start.{StartPosition, stream_bounds, resolve_start_position}
use messq.Store.Consumers.Seek.{
  SeekResult, count_ready, move_cursor, seek_impact, seek_to, seek_consumer,
}

count_rows : (rows : List DeliveryRow) → count_ready rows + count_inflight rows ≡ length rows
unfolding count_ready count_inflight
count_rows [] = omega arith
count_rows (r ∷ rows) = ground (arith, count_rows rows)

-- What a dry run answers, where the run answers `out`.
abbrev pub rehearsed : ConsumerTables → ConsumerTables × SeekResult → ConsumerTables × SeekResult
rehearsed t (after, res) = (t, record res { generation = 0 })

abbrev pub Rehearses :
    ConsumerTables
    → Result ConsumerError (ConsumerTables × SeekResult)
    → Result ConsumerError (ConsumerTables × SeekResult)
    → Type 0
Rehearses t (ok out) dry = dry ≡ ok (rehearsed t out)
Rehearses t (err e) dry = dry ≡ err e

module _ (to : StartPosition) (now : Time) (t : ConsumerTables) where
  moved-Rehearses :
      (r : ConsumerRow) (target : ℕ) (at : ℕ × ℕ)
      → Rehearses t
          (move_cursor (seek_impact to t r target at) r t)
          (ok (t, record { impact = seek_impact to t r target at; generation = 0 }))
  unfolding seek_impact
  moved-Rehearses r target (first, next) =
      let same = count_rows t.deliveries in
      let planned : (length t.deliveries
            == (count_ready t.deliveries + count_inflight t.deliveries))
          ≡ true =
        ground (arith, same) in
      rw planned refl

  seek_to-Rehearses :
      (r : ConsumerRow) (at : ℕ × Bool)
      → Rehearses t (seek_to to false now t r at) (seek_to to true now t r at)
  seek_to-Rehearses r (target, true) = refl
  seek_to-Rehearses r (target, false) =
      elim (Result-cases (stream_bounds t.anchors t.anchors.next)) [
        | inl (at, e) ↦ rw e (moved-Rehearses r target at)
        | inr (e, failed) ↦ rw failed refl
      ]

  with_row-Rehearses :
      (found : Option ConsumerRow)
      (go go' : ConsumerRow → Result ConsumerError (ConsumerTables × SeekResult))
      → ((r : ConsumerRow) → Rehearses t (go r) (go' r))
      → Rehearses t (with_row found go) (with_row found go')
  with_row-Rehearses none go go' h = refl
  with_row-Rehearses (some r) go go' h = h r

  -- A dry run of a seek answers as the run would, a refusal with the same error and success with the
  -- same impact, and changes nothing; and the number of rows deleted is always the number planned.
  pub seek_consumer-Rehearses :
      Rehearses t (seek_consumer to false now t) (seek_consumer to true now t)
  unfolding seek_consumer
  seek_consumer-Rehearses = with_row-Rehearses t.row _ _ (λ r.
      elim (Result-cases (resolve_start_position to now t.anchors)) [
        | inl (at, e) ↦ rw e (seek_to-Rehearses r at)
        | inr (e, failed) ↦ rw failed refl
      ])
