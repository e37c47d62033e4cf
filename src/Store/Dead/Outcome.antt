-- ===== src/Store/Dead/Outcome.antt =====
-- DLQSink.Dead (internal/store/dead.go): the ways in which a dead letter ends well.
use messq.Common.{
  ℕ, suc, ◌≡◌, ◌≢◌, refl, sym, ap, ◌∙◌, subst, ◌⊎◌, inl, inr, List, [], ◌∷◌, ◌++◌, Bool, true,
  false, not, Option, none, some, Bytes, ℤ, pos, Result, ok, err, >>=-eq-ok, ok-inj, map_err, ◌>>=◌,
  if◌then◌else◌,
}
use messq.Queue.Types.{DeadPolicy, dlq, drop, other_policy}
use messq.Queue.Dead.{DeadCtx, DeadPlan, DeadBudget, can_copy, spend, plan_dead}
use messq.Store.Streams.Tables.{StoredMessage, Tables}
use messq.Store.Streams.Publish.{alloc_seq, alloc_from, insert_message, bump_stats}
use messq.Store.Streams.Outcome.{insert_message-ok}
use messq.Store.Dead.Provenance.{provenance_headers, merge_copy_headers}
use messq.Store.Dead.{
  written, dropped, origin_missing, DeadEvent, headers, store, load_dead_policy, dead_event,
  ensure_dlq_stream, find_message, clamp_published_at, copy_of, DlqSink, max_dlq_header_bytes,
  write_copy, copy_dead, dead, Buried,
}

pub map_err-eq-ok :
    {E F A : Type 0} (f : E → F) (call : Result E A) {a : A} → map_err f call ≡ ok a → call ≡ ok a
map_err-eq-ok f (ok b) h = ap ok (ok-inj h)
map_err-eq-ok f (err e) h = cc

alloc_from-ok :
    (t : Tables) (next : Option ℕ) (n : ℕ) (u : Tables)
    → alloc_from t next ≡ ok (n, u)
    → (next ≡ some n) × (u ≡ record t { next = some (suc n) })
alloc_from-ok t none n u h = cc
alloc_from-ok t (some k) n u h =
    let number : k ≡ n = ap (λ p. p.0) (ok-inj h) in
    (
      ap some number,
      sym (ap (λ p. p.1) (ok-inj h)) ∙ ap (λ k. record t { next = some (suc k) }) number,
    )

-- What `if !test { return }` went on to.
unless-cases :
    {A : Type 0} (test : Bool) (x y : A) {z : A}
    → (if not test then x else y) ≡ z
    → ((test ≡ false) × (x ≡ z)) ⊎ (y ≡ z)
unless-cases true x y h = inr h
unless-cases false x y h = inl (refl, h)

unless-eq-ok :
    {E A : Type 0} (test : Bool) (e : E) (y : Result E A) {a : A}
    → (if not test then err e else y) ≡ ok a
    → (test ≡ true) × (y ≡ ok a)
unless-eq-ok true e y h = (refl, h)
unless-eq-ok false e y h = cc

module _ (s : DlqSink) (new_id : Bytes) (now_ms : ℤ) where
  -- The stream with the copy at its end.
  abbrev pub grown : Tables → StoredMessage → ℕ → Bytes → Tables
  grown u m n hdr = record u {
    next = some (suc n);
    messages = u.messages ++ (copy_of m n new_id hdr (clamp_published_at u.messages now_ms) ∷ []);
    stats = bump_stats m.size u.stats;
  }

  -- Nothing was written: the policy does not copy, or there is no message to copy.
  pub record IsUncopied (policy : Option DeadPolicy) (origin : List StoredMessage) (t t' : Tables)
      (n : ℕ) (b b' : Option DeadBudget) (ev : DeadEvent) : Type 0 where
    pub why :
        ((ev.outcome ≡ dropped) × (load_dead_policy policy ≢ dlq))
        ⊎ ((ev.outcome ≡ origin_missing) × (find_message n origin ≡ none))
    pub same : t' ≡ t
    pub unspent : b' ≡ b

  -- The stream is there, and the message stands at its end under the stream's next number, with the
  -- origin's subject, body, size and trace.
  pub record IsCopied (origin : List StoredMessage) (t t' : Tables) (n : ℕ)
      (b b' : Option DeadBudget) (ev : DeadEvent) : Type 0 where
    pub name : Bytes
    pub message : StoredMessage
    pub hdr : Bytes
    pub outcome : ev.outcome ≡ written
    pub found : find_message n origin ≡ some message
    pub within : can_copy b (pos message.size) ≡ true
    pub next_is : (ensure_dlq_stream s.cfg name now_ms t).next ≡ some ev.dlq_seq
    pub after : t' ≡ grown (ensure_dlq_stream s.cfg name now_ms t) message ev.dlq_seq hdr
    pub spent : b' ≡ spend b (pos message.size)

  write_copy-after :
      (d : DeadCtx) (plan : DeadPlan) (b : Option DeadBudget) (m : StoredMessage) (n : ℕ)
      (u : Tables) (ev : DeadEvent) (t' : Tables) (b' : Option DeadBudget)
      → write_copy s new_id now_ms d plan b m (n, record u { next = some (suc n) })
        ≡ ok (ev, t', b')
      → (hdr : Bytes) × (ev.outcome ≡ written)
        × (ev.dlq_seq ≡ n)
        × (t' ≡ grown u m n hdr)
        × (b' ≡ spend b (pos m.size))
  unfolding write_copy
  write_copy-after d plan b m n u ev t' b' h =
      let prov = provenance_headers s.time_text d m.published_at now_ms s.cfg.reason_header_bytes in
      let (hdr, merged, h) =
        >>=-eq-ok
          (map_err headers
            (merge_copy_headers s.marshal s.unmarshal (max_dlq_header_bytes s) m.hdr prov.0))
          _ h in
      let copy = copy_of m n new_id hdr.0 (clamp_published_at u.messages now_ms) in
      let (messages, put, h) = >>=-eq-ok (map_err store (insert_message copy u.messages)) _ h in
      let (_, _, longer) = insert_message-ok copy u.messages (map_err-eq-ok store _ put) in
      let ends = ok-inj h in
      (
        hdr.0,
        sym (ap (λ (p : Buried). p.0.outcome) ends),
        sym (ap (λ (p : Buried). p.0.dlq_seq) ends),
        sym (ap (λ (p : Buried). p.1) ends)
            ∙ ap
                (λ ms. record u {
                  next = some (suc n);
                  messages = ms;
                  stats = bump_stats m.size u.stats;
                })
                longer,
        sym (ap (λ (p : Buried). p.2) ends),
      )

  allocated-IsCopied :
      (d : DeadCtx) (plan : DeadPlan) (b : Option DeadBudget) (origin : List StoredMessage)
      (t t' : Tables) (m : StoredMessage) (ev : DeadEvent) (b' : Option DeadBudget)
      → (map_err store (alloc_seq (ensure_dlq_stream s.cfg plan.dlq_stream now_ms t))
          >>= write_copy s new_id now_ms d plan b m)
        ≡ ok (ev, t', b')
      → can_copy b (pos m.size) ≡ true
      → find_message d.seq origin ≡ some m
      → IsCopied origin t t' d.seq b b' ev
  unfolding alloc_seq
  allocated-IsCopied d plan b origin t t' m ev b' h within found =
      let u = ensure_dlq_stream s.cfg plan.dlq_stream now_ms t in
      let ((n, v), allocated, h) = >>=-eq-ok (map_err store (alloc_seq u)) _ h in
      let (next_is, counted) = alloc_from-ok u u.next n v (map_err-eq-ok store _ allocated) in
      let (hdr, outcome, number, after, spent) =
        write_copy-after d plan b m n u ev t' b'
          (subst (λ v. write_copy s new_id now_ms d plan b m (n, v) ≡ ok (ev, t', b')) counted h) in
      record {
        name = plan.dlq_stream;
        message = m;
        hdr = hdr;
        outcome = outcome;
        found = found;
        within = within;
        next_is = next_is ∙ ap some (sym number);
        after = subst (λ k. t' ≡ grown u m k hdr) (sym number) after;
        spent = spent;
      }

  copy_dead-cases :
      (policy : Option DeadPolicy) (origin : List StoredMessage) (t t' : Tables) (d : DeadCtx)
      (p : DeadPolicy) (plan : DeadPlan) (b b' : Option DeadBudget) (ev : DeadEvent)
      (hit : Option StoredMessage)
      → copy_dead s new_id now_ms (record d { policy = p }) plan b t hit ≡ ok (ev, t', b')
      → find_message d.seq origin ≡ hit
      → IsUncopied policy origin t t' d.seq b b' ev ⊎ IsCopied origin t t' d.seq b b' ev
  unfolding copy_dead
  copy_dead-cases policy origin t t' d p plan b b' ev none h missing =
      let ends = ok-inj h in
      inl (record {
        why = inr (sym (ap (λ (p : Buried). p.0.outcome) ends), missing);
        same = sym (ap (λ (p : Buried). p.1) ends);
        unspent = sym (ap (λ (p : Buried). p.2) ends);
      })
  copy_dead-cases policy origin t t' d p plan b b' ev (some m) h found =
      let (within, h) = unless-eq-ok (can_copy b (pos m.size)) _ _ h in
      inr (allocated-IsCopied (record d { policy = p }) plan b origin t t' m ev b' h within found)

  copies_not :
      (policy : DeadPolicy) (d : DeadCtx)
      → (plan_dead (record d { policy = policy }) s.cfg).copy ≡ false
      → policy ≢ dlq
  unfolding plan_dead
  copies_not dlq d h same = cc
  copies_not drop d h same = cc
  copies_not (other_policy name) d h same = cc

  -- A dead letter that ends well is dropped because of its policy, has no message to copy, or is copied
  -- whole: to the end of the dead-letter stream, which is created where it is not there, under the
  -- stream's next number, within the budget, which is spent by its size.
  pub dead-Outcome :
      (policy : Option DeadPolicy) (origin : List StoredMessage) (t t' : Tables) (d : DeadCtx)
      (b b' : Option DeadBudget) (ev : DeadEvent)
      → dead s new_id now_ms policy origin t d b ≡ ok (ev, t', b')
      → IsUncopied policy origin t t' d.seq b b' ev ⊎ IsCopied origin t t' d.seq b b' ev
  unfolding dead
  dead-Outcome policy origin t t' d b b' ev h =
      let p = load_dead_policy policy in
      let at = record d { policy = p } in
      let plan = plan_dead at s.cfg in
      elim (unless-cases plan.copy (ok (dead_event dropped at now_ms, t, b))
        (copy_dead s new_id now_ms at plan b t (find_message d.seq origin)) h) [
          | inl (no_copy, h) ↦
              let ends = ok-inj h in
              inl (record {
                why = inl (sym (ap (λ (p : Buried). p.0.outcome) ends), copies_not p d no_copy);
                same = sym (ap (λ (p : Buried). p.1) ends);
                unspent = sym (ap (λ (p : Buried). p.2) ends);
              })
          | inr h ↦
              copy_dead-cases policy origin t t' d p plan b b' ev (find_message d.seq origin) h refl
        ]
