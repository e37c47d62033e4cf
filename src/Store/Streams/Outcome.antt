-- ===== src/Store/Streams/Outcome.antt =====
-- publishTx (internal/store/publish.go): the two ways in which a publish succeeds.
use messq.Common.{
  ℕ, suc, ◌≡◌, refl, sym, ap, subst, ◌∙◌, ◌⊎◌, inl, inr, List, [], ◌∷◌, ◌++◌, Bool, true, false,
  not, ◌&&◌, Option, none, some, Bytes, bytes_eq, ℤ, pos, ltb_ℤ, codes, if◌then◌else◌, Result, ok,
  err, >>=-eq-ok, ok-inj, map_err, arith,
}
use messq.Queue.Types.{Error}
use messq.Queue.Dlq.{Headers}
use messq.Queue.Publish.{PublishReq, validate_publish}
use messq.Store.Streams.Tables.{StoredMessage, Tables, CommandError, refused}
use messq.Store.Streams.Publish.{
  PublishOpts, Ack, LoadedConfig, find_dedup_hit, alloc_seq, alloc_from, allocated, encoded,
  inserted, taken, key_hit, insert_message, bump_stats, dedup_key, duplicate_ack, new_message,
  ack_of, publish_event, store_message, answer, publish_tx_with_config, publish_all, entry,
  client_publish,
}

if_either :
    (b : Bool) (hit : Option StoredMessage)
    → ((if b then hit else none) ≡ none) ⊎ ((if b then hit else none) ≡ hit)
if_either true hit = inr refl
if_either false hit = inl refl

pub insert_message-ok :
    (m : StoredMessage) (ms : List StoredMessage) {out : List StoredMessage}
    → insert_message m ms ≡ ok out
    → (taken m ms ≡ false) × (key_hit m.dedup_key ms ≡ none) × (out ≡ ms ++ (m ∷ []))
unfolding insert_message
insert_message-ok m ms h = ground arith

module _ (encode : Headers → Result Error Bytes) (new_id minted : Bytes) (now : ℤ)
    (lc : LoadedConfig) (r : PublishReq) (o : PublishOpts) where
  -- The message is new: it has the next number, and one row more is there.
  pub record IsNew (t t' : Tables) (ack : Ack) : Type 0 where
    pub seq : ℕ
    pub hdr : Bytes
    pub next_is : t.next ≡ some seq
    pub not_taken :
        taken (new_message encode new_id minted now lc r o seq hdr t.messages) t.messages ≡ false
    pub no_hit : key_hit (dedup_key lc r) t.messages ≡ none
    pub after : t' ≡ record t {
      next = some (suc seq);
      messages =
          t.messages ++ (new_message encode new_id minted now lc r o seq hdr t.messages ∷ []);
      stats =
          bump_stats (new_message encode new_id minted now lc r o seq hdr t.messages).size t.stats;
      events =
          t.events
          ++ publish_event encode new_id minted now lc r o
              (new_message encode new_id minted now lc r o seq hdr t.messages);
    }
    pub answered :
        ack
        ≡ ack_of encode new_id minted now lc r o
            (new_message encode new_id minted now lc r o seq hdr t.messages)

  -- Its key is there: nothing but an audit row is written, and the answer is the original's.
  pub record IsDuplicate (t t' : Tables) (ack : Ack) : Type 0 where
    pub orig : StoredMessage
    pub hit : find_dedup_hit r.msg_id t.messages ≡ some orig
    pub after : t' ≡ record t {
      events =
          t.events
          ++ (record { ts = now; name = codes "msg.dup"; seq = orig.seq; msg_id = orig.id } ∷ []);
    }
    pub answered : ack ≡ duplicate_ack encode new_id minted now lc r o orig

  inserted-IsNew :
      (t : Tables) (n : ℕ) (hdr : Bytes) (call : Result CommandError (List StoredMessage))
      {t' : Tables} {ack : Ack}
      → t.next ≡ some n
      → insert_message (new_message encode new_id minted now lc r o n hdr t.messages) t.messages
        ≡ call
      → inserted encode new_id minted now lc r o n hdr (record t { next = some (suc n) }) call
        ≡ ok (t', ack)
      → IsNew t t' ack
  inserted-IsNew t n hdr (err e) next_is answered h = cc
  inserted-IsNew t n hdr (ok messages) next_is answered h =
      let m = new_message encode new_id minted now lc r o n hdr t.messages in
      let (not_taken, no_hit, appended) = insert_message-ok m t.messages answered in
      let both = rw appended at (ok-inj h) in
      record {
        seq = n;
        hdr = hdr;
        next_is = next_is;
        not_taken = not_taken;
        no_hit = no_hit;
        after = sym (ap (λ p. p.0) both);
        answered = sym (ap (λ p. p.1) both);
      }

  encoded-IsNew :
      (t : Tables) (n : ℕ) (call : Result Error Bytes) {t' : Tables} {ack : Ack}
      → t.next ≡ some n
      → encoded encode new_id minted now lc r o n (record t { next = some (suc n) }) call
        ≡ ok (t', ack)
      → IsNew t t' ack
  encoded-IsNew t n (err e) next_is h = cc
  encoded-IsNew t n (ok hdr) next_is h = inserted-IsNew t n hdr _ next_is refl h

  allocated-IsNew :
      (t : Tables) (next : Option ℕ) {t' : Tables} {ack : Ack}
      → t.next ≡ next
      → allocated encode new_id minted now lc r o (alloc_from t next) ≡ ok (t', ack)
      → IsNew t t' ack
  allocated-IsNew t none e h = cc
  allocated-IsNew t (some n) e h = encoded-IsNew t n (encode r.headers) e h

  store_message-IsNew :
      (t : Tables) {t' : Tables} {ack : Ack}
      → store_message encode new_id minted now lc r o t ≡ ok (t', ack)
      → IsNew t t' ack
  unfolding store_message alloc_seq
  store_message-IsNew t h = allocated-IsNew t t.next refl h

  answer-cases :
      (t : Tables) (hit : Option StoredMessage) {t' : Tables} {ack : Ack}
      → (hit ≡ none) ⊎ (hit ≡ find_dedup_hit r.msg_id t.messages)
      → answer encode new_id minted now lc r o t hit ≡ ok (t', ack)
      → IsNew t t' ack ⊎ IsDuplicate t t' ack
  unfolding answer
  answer-cases t none from h = inl (store_message-IsNew t h)
  answer-cases t (some orig) (inl e) h = cc
  answer-cases t (some orig) (inr e) h =
      let both = ok-inj h in
      inr (record {
        orig = orig;
        hit = sym e;
        after = sym (ap (λ p. p.0) both);
        answered = sym (ap (λ p. p.1) both);
      })

  -- A publish that succeeds has either stored a new message or found a duplicate.
  pub publish-cases :
      (t : Tables) {t' : Tables} {ack : Ack}
      → publish_tx_with_config encode new_id minted now lc r o t ≡ ok (t', ack)
      → IsNew t t' ack ⊎ IsDuplicate t t' ack
  unfolding publish_tx_with_config
  publish-cases t h =
      let (u, valid, h) =
        >>=-eq-ok
          (if o.bypass_limits then ok tt else map_err refused (validate_publish encode lc.cfg r)) _
          h in
      answer-cases t _
        (if_either (not o.bypass_limits && (not (bytes_eq r.msg_id []) && ltb_ℤ (pos 0) lc.window))
          (find_dedup_hit r.msg_id t.messages))
        h

-- An entry of a batch that went well, and what went on after it.
pub entry-ok :
    (line : ℕ) (call : Result CommandError (Tables × Ack))
    (next : Tables → Result (ℕ × CommandError) (Tables × List Ack)) {t' : Tables} {acks : List Ack}
    → entry line call next ≡ ok (t', acks)
    → (u : Tables) × (ack : Ack) × (rest : List Ack) × (call ≡ ok (u, ack))
      × (next u ≡ ok (t', rest))
      × (acks ≡ ack ∷ rest)
entry-ok line (err e) next h = cc
entry-ok line (ok (u, ack)) next h =
    let ((v, rest), after, done) = >>=-eq-ok (next u) _ h in
    let both = ok-inj done in
    (u, ack, rest, refl, after ∙ ap (λ p. ok (p.0, rest)) both, sym (ap (λ p. p.1) both))

-- What every publish keeps, a batch keeps.
pub publish_all-keeps :
    (encode : Headers → Result Error Bytes) (now : ℤ) (lc : LoadedConfig) (P : Tables → Type 0)
    → ((new_id minted : Bytes) (r : PublishReq) (t t' : Tables) (ack : Ack)
        → publish_tx_with_config encode new_id minted now lc r client_publish t ≡ ok (t', ack)
        → P t
        → P t')
    → (line : ℕ) (reqs : List (PublishReq × Bytes × Bytes)) (t t' : Tables) (acks : List Ack)
    → publish_all encode now lc line reqs t ≡ ok (t', acks)
    → P t
    → P t'
unfolding publish_all
publish_all-keeps encode now lc P keeps line [] t t' acks h p = subst P (ap (λ q. q.0) (ok-inj h)) p
publish_all-keeps encode now lc P keeps line ((r, new_id, minted) ∷ reqs) t t' acks h p =
    let (u, ack, rest, first, others, all) = entry-ok line _ _ h in
    publish_all-keeps encode now lc P keeps (suc line) reqs u t' rest others
      (keeps new_id minted r t u ack first p)
