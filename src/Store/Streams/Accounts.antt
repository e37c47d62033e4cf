-- ===== src/Store/Streams/Accounts.antt =====
-- The accounts that the commands keep of a stream (internal/store/publish.go, commands.go, delete.go):
-- its counters, the numbers that are still free, and what a deletion leaves.
use messq.Common.{
  ℕ, suc, ◌+◌, ◌<◌, ◌≡◌, refl, sym, ap, ap₂, ◌∙◌, subst, ◌⊎◌, inl, inr, List, [], ◌∷◌, ◌++◌, length,
  Bool, Option, none, some, Bytes, ℤ, Result, ok, ◌>>=◌, ok-inj, arith, length-append,
}
use messq.Queue.Types.{Error, StreamConfig}
use messq.Queue.Dlq.{Headers}
use messq.Queue.Publish.{PublishReq}
use messq.Store.Streams.Tables.{StreamRow, StoredMessage, AuditEvent, Tables}
use messq.Store.Streams.Publish.{
  PublishOpts, Ack, LoadedConfig, bump_stats, new_message, publish_tx_with_config,
}
use messq.Store.Streams.Outcome.{IsNew, publish-cases}
use messq.Store.Streams.Admin.{
  resume_seq, create_stream, refuse_during_reap, reaping, create_row, delete_rows, existing,
  insert_stream, delete_stream, DeleteResult,
}

abbrev pub total_size : List StoredMessage → ℕ
total_size [] = 0
total_size (m ∷ ms) = m.size + total_size ms

abbrev pub AllBelow : ℕ → List StoredMessage → Type 0
AllBelow n [] = Unit
AllBelow n (m ∷ ms) = (m.seq < n) × AllBelow n ms

-- The stream is there: its counters are those of its messages, whose numbers have all been given.
pub record IsLive (t : Tables) : Type 0 where
  pub config : StreamRow
  pub free : ℕ
  pub row_is : t.row ≡ some config
  pub next_is : t.next ≡ some free
  pub stats_are : t.stats ≡ some (length t.messages, total_size t.messages)
  pub below : AllBelow free t.messages
  pub no_marker : t.reap ≡ none

-- It is not there, and no message of it is, once the marker of its deletion is gone.
pub record IsGone (t : Tables) : Type 0 where
  pub no_row : t.row ≡ none
  pub no_next : t.next ≡ none
  pub no_stats : t.stats ≡ none
  pub empty : t.reap ≡ none → t.messages ≡ []

abbrev pub IsConsistent : Tables → Type 0
IsConsistent t = IsLive t ⊎ IsGone t

pub total_size-append :
    (xs ys : List StoredMessage) → total_size (xs ++ ys) ≡ total_size xs + total_size ys
total_size-append [] ys = omega arith
total_size-append (x ∷ xs) ys = omega (arith, total_size-append xs ys)

pub AllBelow-append :
    (n : ℕ) (xs : List StoredMessage) (m : StoredMessage)
    → AllBelow n xs
    → m.seq ≡ n
    → AllBelow (suc n) (xs ++ (m ∷ []))
AllBelow-append n [] m h e = (omega arith, tt)
AllBelow-append n (x ∷ xs) m (lt, h) e = (omega arith, AllBelow-append n xs m h e)

module _ (encode : Headers → Result Error Bytes) (new_id minted : Bytes) (now : ℤ)
    (lc : LoadedConfig) (r : PublishReq) (o : PublishOpts) where
  new-IsLive :
      (t t' : Tables) (ack : Ack)
      → IsNew encode new_id minted now lc r o t t' ack
      → IsLive t
      → IsLive t'
  unfolding bump_stats
  new-IsLive t t' ack new live =
      let m = new_message encode new_id minted now lc r o new.seq new.hdr t.messages in
      let same : live.free ≡ new.seq = cc in
      let bytes = total_size-append t.messages (m ∷ []) in
      let msgs = length-append t.messages (m ∷ []) in
      let count : suc (length t.messages) ≡ length (t.messages ++ (m ∷ [])) = omega (arith, msgs) in
      let size : total_size t.messages + m.size ≡ total_size (t.messages ++ (m ∷ [])) =
        omega (arith, bytes) in
      subst IsLive (sym new.after) (record {
        config = live.config;
        free = suc new.seq;
        row_is = live.row_is;
        next_is = refl;
        stats_are = ap (bump_stats m.size) live.stats_are ∙ ap₂ (λ a b. some (a, b)) count size;
        below =
            AllBelow-append new.seq t.messages m
              (subst (λ n. AllBelow n t.messages) same live.below) refl;
        no_marker = live.no_marker;
      })

  gone-not_new :
      (t t' : Tables) (ack : Ack) → IsNew encode new_id minted now lc r o t t' ack → IsGone t → ⊥
  gone-not_new t t' ack new gone = cc

  event-IsConsistent :
      (t : Tables) (events : List AuditEvent)
      → IsConsistent t
      → IsConsistent (record t { events = events })
  event-IsConsistent t events (inl live) = inl (record {
    config = live.config;
    free = live.free;
    row_is = live.row_is;
    next_is = live.next_is;
    stats_are = live.stats_are;
    below = live.below;
    no_marker = live.no_marker;
  })
  event-IsConsistent t events (inr gone) = inr (record {
    no_row = gone.no_row;
    no_next = gone.no_next;
    no_stats = gone.no_stats;
    empty = gone.empty;
  })

  pub publish-IsConsistent :
      (t t' : Tables) (ack : Ack)
      → publish_tx_with_config encode new_id minted now lc r o t ≡ ok (t', ack)
      → IsConsistent t
      → IsConsistent t'
  publish-IsConsistent t t' ack h consistent =
      elim (publish-cases encode new_id minted now lc r o t h) [
        | inl new ↦ elim consistent [
          | inl live ↦ inl (new-IsLive t t' ack new live)
          | inr gone ↦ absurd (gone-not_new t t' ack new gone)
        ]
        | inr dup ↦ subst IsConsistent (sym dup.after) (event-IsConsistent t _ consistent)
      ]

existing-same :
    (t : Tables) (diff : List Bytes) {t' : Tables} {existed : Bool}
    → existing t diff ≡ ok (t', existed)
    → t ≡ t'
existing-same t [] h = ap (λ p. p.0) (ok-inj h)
existing-same t (f ∷ fs) h = cc

pub live-create :
    (other : Option Bytes) (cfg : StreamConfig) (ts : ℤ) (t t' : Tables) (existed : Bool)
    → create_stream other cfg ts t ≡ ok (t', existed)
    → IsLive t
    → t ≡ t'
unfolding create_stream refuse_during_reap
live-create other cfg ts t t' existed h live =
    let h =
      subst (λ m. (reaping m >>= λ _. create_row other cfg ts t t.row) ≡ ok (t', existed))
        live.no_marker h in
    existing-same t _
      (subst (λ row. create_row other cfg ts t row ≡ ok (t', existed)) live.row_is h)

created-IsLive :
    (cfg : StreamConfig) (ts : ℤ) (t t' : Tables) (existed : Bool)
    → insert_stream cfg ts t none none ≡ ok (t', existed)
    → t.messages ≡ []
    → t.reap ≡ none
    → IsLive t'
unfolding insert_stream
created-IsLive cfg ts t t' existed h empty unmarked =
    subst IsLive (ap (λ p. p.0) (ok-inj h)) (record {
      config = _;
      free = _;
      row_is = refl;
      next_is = refl;
      stats_are = rw empty refl;
      below = rw empty tt;
      no_marker = unmarked;
    })

gone-create :
    (other : Option Bytes) (cfg : StreamConfig) (ts : ℤ) (t t' : Tables) (existed : Bool)
    (reap : Option ℤ)
    → t.reap ≡ reap
    → (reaping reap >>= λ _. create_row other cfg ts t none) ≡ ok (t', existed)
    → IsGone t
    → IsLive t' × (t'.next ≡ some (resume_seq t.hwm))
unfolding insert_stream
gone-create other cfg ts t t' existed (some n) marked h gone = cc
gone-create (some name) cfg ts t t' existed none unmarked h gone = cc
gone-create none cfg ts t t' existed none unmarked h gone =
    let h =
      subst (λ s. insert_stream cfg ts t none s ≡ ok (t', existed)) gone.no_stats
        (subst (λ n. insert_stream cfg ts t n t.stats ≡ ok (t', existed)) gone.no_next h) in
    (
      created-IsLive cfg ts t t' existed h (gone.empty unmarked) unmarked,
      sym (ap (λ p. p.0.next) (ok-inj h)),
    )

pub gone_created :
    (other : Option Bytes) (cfg : StreamConfig) (ts : ℤ) (t t' : Tables) (existed : Bool)
    → create_stream other cfg ts t ≡ ok (t', existed)
    → IsGone t
    → IsLive t' × (t'.next ≡ some (resume_seq t.hwm))
unfolding create_stream refuse_during_reap
gone_created other cfg ts t t' existed h gone =
    gone-create other cfg ts t t' existed t.reap refl
      (subst (λ row. (reaping t.reap >>= λ _. create_row other cfg ts t row) ≡ ok (t', existed))
        gone.no_row h)
      gone

pub create-IsConsistent :
    (other : Option Bytes) (cfg : StreamConfig) (ts : ℤ) (t t' : Tables) (existed : Bool)
    → create_stream other cfg ts t ≡ ok (t', existed)
    → IsConsistent t
    → IsConsistent t'
create-IsConsistent other cfg ts t t' existed h (inl live) =
    inl (subst IsLive (live-create other cfg ts t t' existed h live) live)
create-IsConsistent other cfg ts t t' existed h (inr gone) =
    inl (gone_created other cfg ts t t' existed h gone).0

delete-IsGone :
    (ts : ℤ) (t t' : Tables) (res : DeleteResult) (stats : Option (ℕ × ℕ))
    → delete_rows ts t stats ≡ ok (t', res)
    → IsGone t'
delete-IsGone ts t t' res none h = cc
delete-IsGone ts t t' res (some (msgs, bytes)) h =
    subst IsGone (ap (λ p. p.0) (ok-inj h))
      (record { no_row = refl; no_next = refl; no_stats = refl; empty = λ e. cc })

-- A deletion leaves no row but those that its marker stands for.
pub delete-IsConsistent :
    (ts : ℤ) (t t' : Tables) (res : DeleteResult)
    → delete_stream ts t ≡ ok (t', res)
    → IsConsistent t'
unfolding delete_stream
delete-IsConsistent ts t t' res h = inr (delete-IsGone ts t t' res t.stats h)
