-- ===== src/Store/Dead/Accounts.antt =====
-- DLQSink.Dead (internal/store/dead.go): the accounts of the dead-letter stream.
use messq.Common.{
  ℕ, suc, ◌≡◌, refl, sym, ap, ap₂, ◌∙◌, subst, inl, inr, List, [], ◌∷◌, length, length-append,
  Option, none, some, Bytes, ℤ, ok, arith,
}
use messq.Queue.Types.{DeadPolicy}
use messq.Queue.Dead.{DeadCtx, DlqConfig, DeadBudget}
use messq.Store.Streams.Tables.{StreamRow, StoredMessage, Tables}
use messq.Store.Streams.Publish.{bump_stats}
use messq.Store.Streams.Accounts.{
  total_size, total_size-append, AllBelow, AllBelow-append, IsLive, IsGone, IsConsistent,
}
use messq.Store.Dead.{
  DeadEvent, dlq_template, or_new, create_event, ensure_dlq_stream, copy_of, clamp_published_at,
  DlqSink, dead,
}
use messq.Store.Dead.Outcome.{grown, dead-Outcome}

there :
    (t : Tables) (r : StreamRow) (now_ms : ℤ) (row : Option StreamRow) (next : Option ℕ)
    (stats : Option (ℕ × ℕ)) {c : StreamRow} {n : ℕ} {a : ℕ × ℕ}
    → row ≡ some c
    → next ≡ some n
    → stats ≡ some a
    → create_event row now_ms
        (record t { row = or_new row r; next = or_new next 1; stats = or_new stats (0, 0) })
      ≡ record t { row = row; next = next; stats = stats }
there t r now_ms (some c) (some n) (some a) h k l = refl
there t r now_ms none next stats h k l = cc
there t r now_ms (some c) none stats h k l = cc
there t r now_ms (some c) (some n) none h k l = cc

-- A stream that is there is left as it is.
pub ensure-live :
    (cfg : DlqConfig) (name : Bytes) (now_ms : ℤ) (t : Tables)
    → IsLive t
    → ensure_dlq_stream cfg name now_ms t ≡ t
unfolding ensure_dlq_stream
ensure-live cfg name now_ms t live =
    there t (dlq_template cfg name now_ms) now_ms t.row t.next t.stats live.row_is live.next_is
      live.stats_are

not_there :
    (t : Tables) (r : StreamRow) (now_ms : ℤ) (row : Option StreamRow) (next : Option ℕ)
    (stats : Option (ℕ × ℕ))
    → row ≡ none
    → next ≡ none
    → stats ≡ none
    → create_event row now_ms
        (record t { row = or_new row r; next = or_new next 1; stats = or_new stats (0, 0) })
      ≡ create_event none now_ms (record t { row = some r; next = some 1; stats = some (0, 0) })
not_there t r now_ms none none none h k l = refl
not_there t r now_ms (some c) next stats h k l = cc
not_there t r now_ms none (some n) stats h k l = cc
not_there t r now_ms none none (some a) h k l = cc

abbrev pub fresh : DlqConfig → Bytes → ℤ → Tables → Tables
fresh cfg name now_ms t =
    create_event none now_ms
      (record t { row = some (dlq_template cfg name now_ms); next = some 1; stats = some (0, 0) })

-- A stream that is not there is created, with its numbers from 1.
pub ensure-gone :
    (cfg : DlqConfig) (name : Bytes) (now_ms : ℤ) (t : Tables)
    → IsGone t
    → ensure_dlq_stream cfg name now_ms t ≡ fresh cfg name now_ms t
unfolding ensure_dlq_stream
ensure-gone cfg name now_ms t gone =
    not_there t (dlq_template cfg name now_ms) now_ms t.row t.next t.stats gone.no_row gone.no_next
      gone.no_stats

ensure-IsLive :
    (cfg : DlqConfig) (name : Bytes) (now_ms : ℤ) (t : Tables)
    → IsConsistent t
    → t.reap ≡ none
    → IsLive (ensure_dlq_stream cfg name now_ms t)
ensure-IsLive cfg name now_ms t (inl live) no_marker =
    subst IsLive (sym (ensure-live cfg name now_ms t live)) live
ensure-IsLive cfg name now_ms t (inr gone) no_marker =
    let empty = gone.empty no_marker in
    subst IsLive (sym (ensure-gone cfg name now_ms t gone)) (record {
      config = dlq_template cfg name now_ms;
      free = 1;
      row_is = refl;
      next_is = refl;
      stats_are = ap (λ ms. some (length ms, total_size ms)) (sym empty);
      below = subst (AllBelow 1) (sym empty) tt;
      no_marker = no_marker;
    })

module _ (s : DlqSink) (new_id : Bytes) (now_ms : ℤ) where
  grown-IsLive :
      (u : Tables) (m : StoredMessage) (n : ℕ) (hdr : Bytes)
      → IsLive u
      → u.next ≡ some n
      → IsLive (grown s new_id now_ms u m n hdr)
  unfolding copy_of bump_stats
  grown-IsLive u m n hdr live next_is =
      let copy = copy_of m n new_id hdr (clamp_published_at u.messages now_ms) in
      let same : live.free ≡ n = cc in
      let bytes = total_size-append u.messages (copy ∷ []) in
      let msgs = length-append u.messages (copy ∷ []) in
      record {
        config = live.config;
        free = suc n;
        row_is = live.row_is;
        next_is = refl;
        stats_are =
            ap (bump_stats m.size) live.stats_are
            ∙ ap₂ (λ a b. some (a, b)) (omega (arith, msgs)) (omega (arith, bytes));
        below =
            AllBelow-append n u.messages copy (subst (λ k. AllBelow k u.messages) same live.below)
              refl;
        no_marker = live.no_marker;
      }

  -- A dead letter keeps the accounts of its stream right, where no deletion of that stream is still
  -- under way: the counters are those of the messages, and every number in use has been given out.
  pub dead-IsConsistent :
      (policy : Option DeadPolicy) (origin : List StoredMessage) (t t' : Tables) (d : DeadCtx)
      (b b' : Option DeadBudget) (ev : DeadEvent)
      → dead s new_id now_ms policy origin t d b ≡ ok (ev, t', b')
      → IsConsistent t
      → t.reap ≡ none
      → IsConsistent t' × (t'.reap ≡ none)
  dead-IsConsistent policy origin t t' d b b' ev h consistent no_marker =
      elim (dead-Outcome s new_id now_ms policy origin t t' d b b' ev h) [
        | inl un ↦ (
          subst IsConsistent (sym un.same) consistent,
          ap (λ (u : Tables). u.reap) un.same ∙ no_marker,
        )
        | inr c ↦
            let live =
              grown-IsLive (ensure_dlq_stream s.cfg c.name now_ms t) c.message ev.dlq_seq c.hdr
                (ensure-IsLive s.cfg c.name now_ms t consistent no_marker) c.next_is in
            let still = subst IsLive (sym c.after) live in (inl still, still.no_marker)
      ]
