-- ===== src/Store/Streams/Times.antt =====
-- The times of a stream's messages (internal/store/publish.go): a clock that steps back.
use messq.Common.{
  ◌≡◌, refl, inl, inr, List, [], ◌∷◌, ◌++◌, Option, none, some, Bytes, ℤ, ◌≤ℤ◌, Result, ok, arith,
}
use messq.Queue.Types.{Error}
use messq.Queue.Dlq.{Headers}
use messq.Queue.Publish.{PublishReq}
use messq.Store.Streams.Tables.{StoredMessage, Tables}
use messq.Store.Streams.Publish.{
  PublishOpts, Ack, LoadedConfig, later, last_published, published_at, publish_tx_with_config,
}
use messq.Store.Streams.Outcome.{publish-cases}

abbrev AllUpTo : ℤ → List StoredMessage → Type 0
AllUpTo p [] = Unit
AllUpTo p (m ∷ ms) = (m.published_at ≤ℤ p) × AllUpTo p ms

abbrev AllFrom : ℤ → List StoredMessage → Type 0
AllFrom p [] = Unit
AllFrom p (m ∷ ms) = (p ≤ℤ m.published_at) × AllFrom p ms

-- No message is older than one before it.
abbrev pub InOrder : List StoredMessage → Type 0
InOrder [] = Unit
InOrder (m ∷ ms) = AllFrom m.published_at ms × InOrder ms

abbrev Bounds : Option ℤ → List StoredMessage → Type 0
Bounds none ms = ms ≡ []
Bounds (some p) ms = AllUpTo p ms

AllUpTo-le : (p q : ℤ) (ms : List StoredMessage) → p ≤ℤ q → AllUpTo p ms → AllUpTo q ms
AllUpTo-le p q [] le h = tt
AllUpTo-le p q (m ∷ ms) le (le', h) = (omega arith, AllUpTo-le p q ms le h)

later-AllUpTo :
    (m : StoredMessage) (last : Option ℤ) (ms : List StoredMessage)
    → Bounds last ms
    → AllUpTo (later m.published_at last) (m ∷ ms)
later-AllUpTo m none ms h = rw h (omega arith, tt)
later-AllUpTo m (some p) ms h =
    (ground arith, AllUpTo-le p (later m.published_at (some p)) ms (ground arith) h)

last-Bounds : (ms : List StoredMessage) → Bounds (last_published ms) ms
unfolding last_published
last-Bounds [] = refl
last-Bounds (m ∷ ms) = later-AllUpTo m (last_published ms) ms (last-Bounds ms)

published-AllUpTo :
    (now : ℤ) (last : Option ℤ) (ms : List StoredMessage)
    → Bounds last ms
    → AllUpTo (published_at now last) ms
unfolding published_at
published-AllUpTo now none ms h = rw h tt
published-AllUpTo now (some p) ms h = AllUpTo-le p (published_at now (some p)) ms (ground arith) h

AllFrom-append :
    (p : ℤ) (ms : List StoredMessage) (m : StoredMessage)
    → AllFrom p ms
    → p ≤ℤ m.published_at
    → AllFrom p (ms ++ (m ∷ []))
AllFrom-append p [] m h le = (le, tt)
AllFrom-append p (x ∷ ms) m (le', h) le = (le', AllFrom-append p ms m h le)

InOrder-append :
    (ms : List StoredMessage) (m : StoredMessage)
    → InOrder ms
    → AllUpTo m.published_at ms
    → InOrder (ms ++ (m ∷ []))
InOrder-append [] m h up = (tt, tt)
InOrder-append (x ∷ ms) m (from, h) (le, up) =
    (AllFrom-append x.published_at ms m from le, InOrder-append ms m h up)

-- A publish keeps the messages in the order of their times, whatever the clock says.
pub publish-InOrder :
    (encode : Headers → Result Error Bytes) (new_id minted : Bytes) (now : ℤ) (lc : LoadedConfig)
    (r : PublishReq) (o : PublishOpts) (t t' : Tables) (ack : Ack)
    → publish_tx_with_config encode new_id minted now lc r o t ≡ ok (t', ack)
    → InOrder t.messages
    → InOrder t'.messages
publish-InOrder encode new_id minted now lc r o t t' ack h ordered =
    elim (publish-cases encode new_id minted now lc r o t h) [
      | inl new ↦ rw new.after (
          InOrder-append t.messages _ ordered
            (published-AllUpTo now (last_published t.messages) t.messages (last-Bounds t.messages)))
      | inr dup ↦ rw dup.after ordered
    ]
