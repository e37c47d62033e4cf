-- ===== src/Store/Lifecycle/Published.antt =====
-- publishTx (internal/store/publish.go), as a consumer of the stream sees it.
use messq.Common.{
  ℕ, suc, ◌≡◌, refl, ap, ◌∙◌, ◌⊎◌, inl, inr, List, [], ◌∷◌, ◌++◌, Option, none, some, Bytes, ℤ,
  Result, ok, >>=-eq-ok,
}
use messq.Queue.Types.{Error}
use messq.Queue.Dlq.{Headers}
use messq.Queue.Publish.{PublishReq}
use messq.Store.Rows.{Message}
use messq.Store.Streams.Tables.{StoredMessage, Tables}
use messq.Store.Streams.Publish.{PublishOpts, Ack, publish_tx, load_stream_config, new_message}
use messq.Store.Streams.Outcome.{publish-cases}

-- The columns that consumers read.
abbrev pub seen : List StoredMessage → List Message
seen [] = []
seen (m ∷ ms) = record { seq = m.seq; subject = m.subject; size = m.size } ∷ seen ms

abbrev pub head_of : Option ℕ → ℕ → ℕ
head_of none n = n
head_of (some k) n = k

seen-append : (xs ys : List StoredMessage) → seen (xs ++ ys) ≡ seen xs ++ seen ys
seen-append [] ys = refl
seen-append (x ∷ xs) ys =
    ap (λ l. record { seq = x.seq; subject = x.subject; size = x.size } ∷ l) (seen-append xs ys)

-- One message more, under the stream's next number; or the same messages and head.
abbrev pub Publishes : List Message → ℕ → List Message → ℕ → Type 0
Publishes ms n ms' n' =
    ((m : Message) × (m.seq ≡ n) × (ms' ≡ ms ++ (m ∷ [])) × (n' ≡ suc n)) ⊎ ((ms' ≡ ms) × (n' ≡ n))

pub publish_tx-Publishes :
    (encode : Headers → Result Error Bytes) (new_id minted : Bytes) (now : ℤ) (name : Bytes)
    (r : PublishReq) (o : PublishOpts) (t t' : Tables) (ack : Ack) (n : ℕ)
    → t.next ≡ some n
    → publish_tx encode new_id minted now name r o t ≡ ok (t', ack)
    → Publishes (seen t.messages) n (seen t'.messages) (head_of t'.next n)
unfolding publish_tx
publish_tx-Publishes encode new_id minted now name r o t t' ack n at h =
    let (lc, loaded, h) = >>=-eq-ok (load_stream_config name t) _ h in
    elim (publish-cases encode new_id minted now lc r o t h) [
      | inl new ↦
          let m = new_message encode new_id minted now lc r o new.seq new.hdr t.messages in
          let same : new.seq ≡ n = cc in
          inl (
            record { seq = m.seq; subject = m.subject; size = m.size },
            same,
            ap (λ (u : Tables). seen u.messages) new.after ∙ seen-append t.messages (m ∷ []),
            ap (λ (u : Tables). head_of u.next n) new.after ∙ ap suc same,
          )
      | inr dup ↦ inr (
        ap (λ (u : Tables). seen u.messages) dup.after,
        ap (λ (u : Tables). head_of u.next n) dup.after ∙ ap (λ k. head_of k n) at,
      )
    ]
