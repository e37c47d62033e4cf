-- ===== src/Store/Streams/Retry.antt =====
-- publishTx and batchPublishCmd (internal/store/publish.go, commands.go): a publish that is tried
-- again under its message id.
use messq.Common.{
  ℕ, ◌≡◌, refl, sym, ap, inl, inr, List, [], ◌∷◌, ◌++◌, true, false, none, some, Bytes, bytes_eq,
  bytes_eq_refl, ℤ, pos, ltb_ℤ, Result, ok, arith, codes,
}
use messq.Queue.Types.{Error}
use messq.Queue.Dlq.{Headers}
use messq.Queue.Publish.{PublishReq, validate_publish}
use messq.Store.Streams.Tables.{StoredMessage, AuditEvent, Tables, same_key}
use messq.Store.Streams.Publish.{
  PublishOpts, client_publish, Ack, LoadedConfig, find_dedup_hit, dedup_key, duplicate_ack,
  new_message, answer, publish_tx_with_config, publish_all,
}
use messq.Store.Streams.Outcome.{publish-cases, publish_all-keeps}

pub find-append :
    (key : Bytes) (ms ys : List StoredMessage) {m : StoredMessage}
    → find_dedup_hit key ms ≡ some m
    → find_dedup_hit key (ms ++ ys) ≡ some m
unfolding find_dedup_hit
find-append key [] ys h = cc
find-append key (x ∷ ms) ys {m} h = ground (arith, find-append key ms ys {m = m})

find-append-new :
    (key : Bytes) (ms : List StoredMessage) (m : StoredMessage)
    → find_dedup_hit key ms ≡ none
    → same_key key m.dedup_key ≡ true
    → find_dedup_hit key (ms ++ (m ∷ [])) ≡ some m
unfolding find_dedup_hit
find-append-new key [] m h same = rw same refl
find-append-new key (x ∷ ms) m h same = ground (arith, find-append-new key ms m)

dedup_key-some :
    (lc : LoadedConfig) (r : PublishReq)
    → bytes_eq r.msg_id [] ≡ false
    → ltb_ℤ (pos 0) lc.window ≡ true
    → dedup_key lc r ≡ some r.msg_id
unfolding dedup_key
dedup_key-some lc r named open_window = ground arith

module _ (encode : Headers → Result Error Bytes) (lc : LoadedConfig) where
  -- No publish displaces the message that a key finds.
  publish-keeps_hit :
      (new_id minted : Bytes) (now : ℤ) (r : PublishReq) (o : PublishOpts) (t : Tables)
      (key : Bytes) {m : StoredMessage} {t' : Tables} {ack : Ack}
      → publish_tx_with_config encode new_id minted now lc r o t ≡ ok (t', ack)
      → find_dedup_hit key t.messages ≡ some m
      → find_dedup_hit key t'.messages ≡ some m
  publish-keeps_hit new_id minted now r o t key h hit =
      elim (publish-cases encode new_id minted now lc r o t h) [
        | inl new ↦ rw new.after (find-append key t.messages _ hit)
        | inr dup ↦ rw dup.after hit
      ]

  -- The message that an answered publish's key finds is the one that the answer names.
  publish-hit :
      (new_id minted : Bytes) (now : ℤ) (r : PublishReq) (t : Tables) {t' : Tables} {ack : Ack}
      → bytes_eq r.msg_id [] ≡ false
      → ltb_ℤ (pos 0) lc.window ≡ true
      → publish_tx_with_config encode new_id minted now lc r client_publish t ≡ ok (t', ack)
      → (m : StoredMessage) × (find_dedup_hit r.msg_id t'.messages ≡ some m)
        × (record ack { duplicate = true }
            ≡ duplicate_ack encode new_id minted now lc r client_publish m)
  publish-hit new_id minted now r t named open_window h =
      let key = dedup_key-some lc r named open_window in
      elim (publish-cases encode new_id minted now lc r client_publish t h) [
        | inl new ↦
            let m =
              new_message encode new_id minted now lc r client_publish new.seq new.hdr t.messages in
            (
              m,
              rw new.after (
                  find-append-new r.msg_id t.messages m (rw key at new.no_hit)
                    (rw key (bytes_eq_refl r.msg_id))),
              ap (λ (a : Ack). record a { duplicate = true }) new.answered,
            )
        | inr dup ↦ (
          dup.orig,
          rw dup.after dup.hit,
          ap (λ (a : Ack). record a { duplicate = true }) dup.answered,
        )
      ]

  -- On a stream whose dedup window is not 0, a publish under a message id, answered once, and tried
  -- again after one more batch of publishes and before any sweep of dedup keys: if the second request is
  -- valid, its answer is the first one marked as a duplicate, and nothing but an audit row is written
  -- for it.
  pub publish-again :
      (id1 minted1 id2 minted2 : Bytes) (now1 between now2 : ℤ) (r again : PublishReq) (line : ℕ)
      (reqs : List (PublishReq × Bytes × Bytes)) (t t1 t2 : Tables) (ack : Ack) (acks : List Ack)
      → bytes_eq r.msg_id [] ≡ false
      → ltb_ℤ (pos 0) lc.window ≡ true
      → publish_tx_with_config encode id1 minted1 now1 lc r client_publish t ≡ ok (t1, ack)
      → publish_all encode between lc line reqs t1 ≡ ok (t2, acks)
      → again.msg_id ≡ r.msg_id
      → validate_publish encode lc.cfg again ≡ ok tt
      → (t3 : Tables) × (publish_tx_with_config encode id2 minted2 now2 lc again client_publish t2
          ≡ ok (t3, record ack { duplicate = true }))
        × (t3 ≡ record t2 { events = t3.events })
  unfolding publish_tx_with_config answer client_publish
  publish-again id1 minted1 id2 minted2 now1 between now2 r again line reqs t t1 t2 ack acks named
        open_window first others same_id valid =
      let (m, hit, answered) = publish-hit id1 minted1 now1 r t named open_window first in
      let hit2 =
        publish_all-keeps encode between lc (λ u. find_dedup_hit r.msg_id u.messages ≡ some m)
          (λ new_id minted q u u' a ok_u.
            publish-keeps_hit new_id minted between q client_publish u r.msg_id ok_u)
          line reqs t1 t2 acks others hit in
      let ev : AuditEvent = record {
        ts = now2;
        name = codes "msg.dup";
        seq = m.seq;
        msg_id = m.id;
      } in
      (
        record t2 { events = t2.events ++ (ev ∷ []) },
        rw (valid, same_id, hit2, named, open_window)
            (ap (λ (a : Ack). ok (record t2 { events = t2.events ++ (ev ∷ []) }, a))
              (sym answered)),
        refl,
      )
