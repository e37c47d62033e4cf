-- ===== src/Store/Streams/Numbers.antt =====
-- The sequence numbers of a stream name (internal/store/publish.go, commands.go), over creations,
-- publishes, updates, deletions, resumed deletions and sweeps of dedup keys in any order. The chunks that
-- DeleteStream itself issues and the copies of dead letters are not among these commands.
use messq.Common.{
  ℕ, zero, suc, ◌≡◌, refl, sym, ap, ap₂, ◌∙◌, subst, inl, inr, List, [], ◌∷◌, length, Bool, Option,
  none, some, Bytes, ℤ, ◌+ℤ◌, Result, ok, err, >>=-eq-ok, arith, ok-inj, if◌then◌else◌,
}
use messq.Queue.Types.{Error, StreamConfig}
use messq.Queue.Dlq.{Headers}
use messq.Queue.Publish.{PublishReq}
use messq.Store.Streams.Tables.{StreamRow, Tables, CommandError}
use messq.Store.Streams.Publish.{PublishOpts, Ack, publish_tx, load_stream_config}
use messq.Store.Streams.Outcome.{publish-cases}
use messq.Store.Streams.Admin.{
  resume_seq, create_stream, delete_stream, delete_rows, high_water_mark, reap_chunk, reap_resume,
  marked_chunk, sweep_dedup, sweep_window, DeleteResult,
}
use messq.Store.Streams.Accounts.{
  IsConsistent, publish-IsConsistent, live-create, gone_created, delete-IsConsistent,
}
use messq.Store.Streams.Patch.{StreamPatch, UpdateResult, update_stream}
use messq.Store.Streams.Updated.{update_stream-IsConsistent}
use messq.Queue.Config.{Limits}
use messq.Store.Streams.Deletion.{resume-IsConsistent, sweep-IsConsistent}

-- The commands on a stream. Those of its messages are client publishes and copies of the broker.
pub data Command : Type 0 where
  create : Option Bytes → StreamConfig → ℤ → Command
  publish : (new_id minted : Bytes) (now : ℤ) (name : Bytes) → PublishReq → PublishOpts → Command
  delete : ℤ → Command
  resume : Command
  sweep : ℤ → Command
  update : Limits → (allow_loss : Bool) (now : ℤ) → StreamPatch → Command

-- A command that fails is rolled back. The second component is the number that a publish gives out.
abbrev committed {ℓ} :
    {A : Type ℓ} → Tables → Result CommandError (Tables × A) → (A → Option ℕ) → Tables × Option ℕ
committed t (err e) number = (t, none)
committed t (ok (u, a)) number = (u, number a)

abbrev pub given : Ack → Option ℕ
given ack = if ack.duplicate then none else some ack.seq

unfoldable pub step : (Headers → Result Error Bytes) → Tables → Command → Tables × Option ℕ
unfolding create_stream publish_tx delete_stream reap_resume sweep_dedup update_stream
step encode t (create other cfg ts) = committed t (create_stream other cfg ts t) (λ _. none)
step encode t (publish new_id minted now name r o) =
    committed t (publish_tx encode new_id minted now name r o t) given
step encode t (delete ts) = committed t (delete_stream ts t) (λ _. none)
step encode t resume = ((reap_resume t).0, none)
step encode t (sweep now) = committed t (sweep_dedup now t) (λ _. none)
step encode t (update l allow_loss now p) =
    committed t (update_stream l allow_loss now p t) (λ _. none)

abbrev opt_cons : Option ℕ → List ℕ → List ℕ
opt_cons none ns = ns
opt_cons (some n) ns = n ∷ ns

-- The tables after the commands, and the numbers that were given out, in their order.
unfoldable pub history : (Headers → Result Error Bytes) → Tables → List Command → Tables × List ℕ
unfolding step
history encode t [] = (t, [])
history encode t (c ∷ cs) =
    let (u, n) = step encode t c in let (v, ns) = history encode u cs in (v, opt_cons n ns)

abbrev free_of : Option ℤ → Option ℕ → ℕ
free_of hwm (some n) = n
free_of hwm none = resume_seq hwm

-- The number that the next message of this name will have, now or after the name is created again.
unfoldable pub free_number : Tables → ℕ
unfolding resume_seq
free_number t = free_of t.hwm t.next

-- What a counter gives out.
abbrev pub count_up : ℕ → ℕ → List ℕ
count_up n zero = []
count_up n (suc k) = n ∷ count_up (suc n) k

abbrev Counts : Tables → Tables → Option ℕ → Type 0
Counts t u none = free_number u ≡ free_number t
Counts t u (some n) = (n ≡ free_number t) × (free_number u ≡ suc (free_number t))

abbrev Steps : Tables → Tables × Option ℕ → Type 0
Steps t (u, n) = IsConsistent u × Counts t u n

committed-Steps {ℓ} :
    {A : Type ℓ} (t : Tables) (call : Result CommandError (Tables × A)) (number : A → Option ℕ)
    → IsConsistent t
    → ((u : Tables) (a : A) → call ≡ ok (u, a) → Steps t (u, number a))
    → Steps t (committed t call number)
committed-Steps t (err e) number consistent h = (consistent, refl)
committed-Steps t (ok (u, a)) number consistent h = h u a refl

publish-Steps :
    (encode : Headers → Result Error Bytes) (new_id minted : Bytes) (now : ℤ) (name : Bytes)
    (r : PublishReq) (o : PublishOpts) (t u : Tables) (ack : Ack)
    → IsConsistent t
    → publish_tx encode new_id minted now name r o t ≡ ok (u, ack)
    → Steps t (u, given ack)
unfolding publish_tx free_number
publish-Steps encode new_id minted now name r o t u ack consistent h =
    let (lc, loaded, h) = >>=-eq-ok (load_stream_config name t) _ h in
    (
      publish-IsConsistent encode new_id minted now lc r o t u ack h consistent,
      elim (publish-cases encode new_id minted now lc r o t h) [
        | inl new ↦ rw (new.answered, new.after, new.next_is) (refl, refl)
        | inr dup ↦ rw (dup.answered, dup.after) refl
      ],
    )

resume-high : (n : ℕ) → resume_seq (some (high_water_mark (some n))) ≡ n
unfolding resume_seq high_water_mark ◌+ℤ◌
resume-high zero = refl
resume-high (suc n) = ground arith

create-Steps :
    (other : Option Bytes) (cfg : StreamConfig) (ts : ℤ) (t u : Tables) (existed : Bool)
    → IsConsistent t
    → create_stream other cfg ts t ≡ ok (u, existed)
    → Steps t (u, none)
unfolding free_number
create-Steps other cfg ts t u existed (inl live) h =
    subst (λ u. Steps t (u, none)) (live-create other cfg ts t u existed h live) (inl live, refl)
create-Steps other cfg ts t u existed (inr gone) h =
    let (live, next) = gone_created other cfg ts t u existed h gone in
    (inl live, ap (free_of u.hwm) next ∙ sym (ap (free_of t.hwm) gone.no_next))

deleted-free :
    (ts : ℤ) (t u : Tables) (res : DeleteResult) (stats : Option (ℕ × ℕ))
    → delete_rows ts t stats ≡ ok (u, res)
    → t.stats ≡ stats
    → IsConsistent t
    → free_number u ≡ free_number t
unfolding free_number
deleted-free ts t u res none h e consistent = cc
deleted-free ts t u res (some s) h e (inr gone) = let no = gone.no_stats in absurd (cc)
deleted-free ts t u res (some (msgs, bytes)) h e (inl live) =
    sym (ap (λ p. free_number p.0) (ok-inj h))
    ∙ ap (λ n. resume_seq (some (high_water_mark n))) live.next_is
    ∙ resume-high live.free
    ∙ sym (ap (free_of t.hwm) live.next_is)

delete-Steps :
    (ts : ℤ) (t u : Tables) (res : DeleteResult)
    → IsConsistent t
    → delete_stream ts t ≡ ok (u, res)
    → Steps t (u, none)
unfolding free_number delete_stream
delete-Steps ts t u res consistent h =
    (delete-IsConsistent ts t u res h, deleted-free ts t u res t.stats h refl consistent)

marked-free : (t : Tables) (reap : Option ℤ) → free_number (marked_chunk t reap).0 ≡ free_number t
unfolding free_number reap_chunk
marked-free t none = refl
marked-free t (some n) = refl

swept-free :
    (now : ℤ) (t u : Tables) (row : Option StreamRow) (cleared : ℕ)
    → sweep_window now t row ≡ ok (u, cleared)
    → free_number u ≡ free_number t
unfolding free_number
swept-free now t u none cleared h = cc
swept-free now t u (some r) cleared h = sym (ap (λ p. free_number p.0) (ok-inj h))

counted :
    (t u : Tables) (n : Option ℕ) (ns : List ℕ)
    → Counts t u n
    → ns ≡ count_up (free_number u) (length ns)
    → opt_cons n ns ≡ count_up (free_number t) (length (opt_cons n ns))
counted t u none ns same h = h ∙ ap (λ f. count_up f (length ns)) same
counted t u (some n) ns (number, same) h =
    ap₂ (λ a l. a ∷ l) number (h ∙ ap (λ f. count_up f (length ns)) same)

update-Steps :
    (l : Limits) (allow_loss : Bool) (now : ℤ) (p : StreamPatch) (t u : Tables) (res : UpdateResult)
    → IsConsistent t
    → update_stream l allow_loss now p t ≡ ok (u, res)
    → Steps t (u, none)
unfolding free_number
update-Steps l allow_loss now p t u res consistent h =
    let (still, only) = update_stream-IsConsistent l allow_loss now p t u res h consistent in
    (still, ap free_number only)

module _ (encode : Headers → Result Error Bytes) where
  step-Steps : (t : Tables) (c : Command) → IsConsistent t → Steps t (step encode t c)
  unfolding step reap_resume sweep_dedup
  step-Steps t (create other cfg ts) ok_t =
      committed-Steps t (create_stream other cfg ts t) _ ok_t
        (λ u existed h. create-Steps other cfg ts t u existed ok_t h)
  step-Steps t (publish new_id minted now name r o) ok_t =
      committed-Steps t (publish_tx encode new_id minted now name r o t) given ok_t
        (λ u ack h. publish-Steps encode new_id minted now name r o t u ack ok_t h)
  step-Steps t (delete ts) ok_t =
      committed-Steps t (delete_stream ts t) _ ok_t (λ u res h. delete-Steps ts t u res ok_t h)
  step-Steps t resume ok_t = (resume-IsConsistent t ok_t, marked-free t t.reap)
  step-Steps t (sweep now) ok_t = committed-Steps t (sweep_dedup now t) _ ok_t (λ u cleared h.
      (sweep-IsConsistent now t u cleared h ok_t, swept-free now t u t.row cleared h))
  step-Steps t (update l allow_loss now p) ok_t =
      committed-Steps t (update_stream l allow_loss now p t) _ ok_t
        (λ u res h. update-Steps l allow_loss now p t u res ok_t h)

  -- From a consistent state, whatever creations, publishes, updates, deletions, resumptions of a
  -- deletion and sweeps of dedup keys follow each other, the numbers that a stream name gives out are
  -- those of one counter, with no gap and no repetition, also where the stream is deleted and created
  -- again; and the state that is reached is consistent. The chunks that DeleteStream itself issues and
  -- the copies of dead letters are not among these commands.
  pub history-eq-count_up :
      (t : Tables) (cs : List Command)
      → IsConsistent t
      → ((history encode t cs).1 ≡ count_up (free_number t) (length (history encode t cs).1))
        × IsConsistent (history encode t cs).0
  unfolding history
  history-eq-count_up t [] ok_t = (refl, ok_t)
  history-eq-count_up t (c ∷ cs) ok_t =
      let (ok_u, counts) = step-Steps t c ok_t in
      let (same, ok_v) = history-eq-count_up (step encode t c).0 cs ok_u in
      (counted t _ _ _ counts same, ok_v)
