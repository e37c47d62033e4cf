-- ===== src/Store/Dead/Restart.antt =====
-- ensureDLQStream (internal/store/dead.go), of a dead-letter stream that has been deleted.
use messq.Common.{
  ℕ, ◌≡◌, ◌<◌, refl, sym, ap, ◌∙◌, inl, inr, List, ◌∷◌, Bool, true, not, Option, some, Bytes, codes,
  ℤ, pos, ok, err, ◌>>=◌, map_err, arith, if◌then◌else◌,
}
use messq.Queue.Types.{DeadPolicy, dlq}
use messq.Queue.Dead.{DeadCtx, DeadBudget, can_copy, plan_dead}
use messq.Store.Streams.Tables.{StoredMessage, Tables, damage}
use messq.Store.Streams.Publish.{alloc_seq, taken, insert_message}
use messq.Store.Streams.Accounts.{IsGone}
use messq.Store.Streams.Numbers.{free_number}
use messq.Store.Dead.Provenance.{provenance_headers, merge_copy_headers}
use messq.Store.Dead.{
  DeadEvent, out_of_budget, store, written, ensure_dlq_stream, find_message, copy_of,
  clamp_published_at, DlqSink, max_dlq_header_bytes, write_copy, copy_dead, dead,
}
use messq.Store.Dead.Outcome.{dead-Outcome}
use messq.Store.Dead.Accounts.{fresh, ensure-gone}

some-inj : {a b : ℕ} → ◌≡◌ {A = Option ℕ} (some a) (some b) → a ≡ b
some-inj h = cc

module _ (s : DlqSink) (new_id : Bytes) (now_ms : ℤ) where
  -- A dead letter to a stream that has been deleted takes number 1, and so one that the stream has given
  -- out before, if it has given out any: creating the stream would have resumed above those.
  pub dead-restarts :
      (policy : Option DeadPolicy) (origin : List StoredMessage) (t t' : Tables) (d : DeadCtx)
      (b b' : Option DeadBudget) (ev : DeadEvent)
      → dead s new_id now_ms policy origin t d b ≡ ok (ev, t', b')
      → ev.outcome ≡ written
      → IsGone t
      → 1 < free_number t
      → (ev.dlq_seq ≡ 1) × (ev.dlq_seq < free_number t)
  dead-restarts policy origin t t' d b b' ev h copied gone given =
      elim (dead-Outcome s new_id now_ms policy origin t t' d b b' ev h) [
        | inl un ↦ elim un.why [ inl (o, _) ↦ absurd (cc) | inr (o, _) ↦ absurd (cc) ]
        | inr c ↦
            let first : ev.dlq_seq ≡ 1 = some-inj (
              sym c.next_is
              ∙ ap (λ (u : Tables). u.next) (ensure-gone s.cfg c.name now_ms t gone)) in
            (first, omega arith)
      ]

  taken-first :
      (copy x : StoredMessage) (rest : List StoredMessage)
      → x.seq ≡ copy.seq
      → taken copy (x ∷ rest) ≡ true
  unfolding taken
  taken-first copy x rest same = ground arith

  write_copy-collides :
      (d : DeadCtx) (b : Option DeadBudget) (m x : StoredMessage) (n : ℕ)
      (rest : List StoredMessage) (t : Tables) {hdr : Bytes × Bool}
      → t.messages ≡ x ∷ rest
      → x.seq ≡ n
      → merge_copy_headers s.marshal s.unmarshal
          (max_dlq_header_bytes s)
          m.hdr
          (provenance_headers s.time_text d m.published_at now_ms s.cfg.reason_header_bytes).0
        ≡ ok hdr
      → write_copy s new_id now_ms d (plan_dead d s.cfg) b m (n, t)
        ≡ err (store (damage (codes "insert message")))
  unfolding write_copy insert_message copy_of
  write_copy-collides d b m x n rest t {hdr} holds same merged =
      let copy = copy_of m n new_id hdr.0 (clamp_published_at t.messages now_ms) in
      let there : taken copy t.messages ≡ true =
        ap (taken copy) holds ∙ taken-first copy x rest same in
      rw (merged, there) refl

  -- Where the rows of the deleted stream are still being reaped, and number 1 is among them, a dead
  -- letter that could be copied fails as damage does, by which the writer is latched.
  pub dead-collides :
      (origin : List StoredMessage) (t : Tables) (d : DeadCtx) (b : Option DeadBudget)
      (m x : StoredMessage) (rest : List StoredMessage) {hdr : Bytes × Bool}
      → IsGone t
      → t.messages ≡ x ∷ rest
      → x.seq ≡ 1
      → find_message d.seq origin ≡ some m
      → can_copy b (pos m.size) ≡ true
      → merge_copy_headers s.marshal s.unmarshal
          (max_dlq_header_bytes s)
          m.hdr
          (provenance_headers s.time_text
            (record d { policy = dlq })
            m.published_at
            now_ms
            s.cfg.reason_header_bytes).0
        ≡ ok hdr
      → dead s new_id now_ms (some dlq) origin t d b ≡ err (store (damage (codes "insert message")))
  unfolding dead copy_dead alloc_seq
  dead-collides origin t d b m x rest gone holds first found within merged =
      let at = record d { policy = dlq } in
      let plan = plan_dead at s.cfg in
      let go =
        λ (u : Tables). map_err store (alloc_seq u) >>= write_copy s new_id now_ms at plan b m in
      ap (copy_dead s new_id now_ms at plan b t) found
      ∙ ap
          (λ fits.
            if not fits
            then err out_of_budget
            else go (ensure_dlq_stream s.cfg plan.dlq_stream now_ms t))
          within
      ∙ ap go (ensure-gone s.cfg plan.dlq_stream now_ms t gone)
      ∙ write_copy-collides at b m x 1 rest
          (record (fresh s.cfg plan.dlq_stream now_ms t) { next = some 2 }) holds first merged
