-- ===== src/Store/Streams/Publish.antt =====
-- publishTx and what it calls (internal/store/publish.go), and the batch (batch.go, commands.go). The
-- new id, and the trace id that is minted where the caller gives none, come from outside.
use messq.Common.{
  ℕ, suc, ◌+◌, List, [], ◌∷◌, ◌++◌, length, Bool, true, false, not, ◌&&◌, ◌||◌, Option, none, some,
  Bytes, bytes_eq, codes, ℤ, pos, ltb_ℤ, eq_ℤ, ◌==◌, if◌then◌else◌, Result, ok, err, ◌>>=◌, map_err,
}
use messq.Errs.{not_found}
use messq.Queue.Types.{Error, sentinel, StreamConfig, limits, old}
use messq.Queue.Dlq.{Headers}
use messq.Queue.Publish.{PublishReq, validate_publish}
use messq.Store.Streams.Tables.{
  StoredMessage, AuditEvent, Tables, CommandError, refused, damage, same_key,
}

pub record PublishOpts : Type 0 where
  pub id_override : Bytes
  pub event : Bytes
  pub bypass_limits : Bool
  pub suppress_event : Bool

unfoldable pub client_publish : PublishOpts
client_publish = record {
  id_override = [];
  event = [];
  bypass_limits = false;
  suppress_event = false;
}

pub record Ack : Type 0 where
  pub stream : Bytes
  pub seq : ℕ
  pub id : Bytes
  pub trace_id : Bytes
  pub duplicate : Bool
  pub published_at : ℤ

pub record LoadedConfig : Type 0 where
  pub cfg : StreamConfig
  pub window : ℤ

-- Of the row, a publish reads the subjects, the size limit and the window.
unfoldable pub load_stream_config : Bytes → Tables → Result CommandError LoadedConfig
load_stream_config name t = elim t.row [
  | none ↦ err (refused (sentinel not_found))
  | some r ↦ ok (record {
    cfg = record {
      name = name;
      subjects = r.subjects;
      retention = limits;
      max_msgs = pos 0;
      max_bytes = pos 0;
      max_age = pos 0;
      max_msg_size = r.max_msg_size;
      discard = old;
      dedup_window = pos 0;
    };
    window = r.dedup_window_ms;
  })
]

unfoldable pub find_dedup_hit : Bytes → List StoredMessage → Option StoredMessage
unfolding bytes_eq
find_dedup_hit key [] = none
find_dedup_hit key (m ∷ ms) =
    let rest = find_dedup_hit key ms in if same_key key m.dedup_key then some m else rest

-- `UPDATE … SET next = next + 1 RETURNING next - 1`
abbrev pub alloc_from : Tables → Option ℕ → Result CommandError (ℕ × Tables)
alloc_from t none = err (refused (sentinel not_found))
alloc_from t (some n) = ok (n, record t { next = some (suc n) })

unfoldable pub alloc_seq : Tables → Result CommandError (ℕ × Tables)
alloc_seq t = alloc_from t t.next

abbrev pub later : ℤ → Option ℤ → ℤ
later at none = at
later at (some p) = if ltb_ℤ p at then at else p

-- SELECT max(published_at)
unfoldable pub last_published : List StoredMessage → Option ℤ
last_published [] = none
last_published (m ∷ ms) = some (later m.published_at (last_published ms))

-- A clock that steps back does not move the stream's time back.
unfoldable pub published_at : ℤ → Option ℤ → ℤ
published_at now none = now
published_at now (some last) = if ltb_ℤ now last then last else now

unfoldable pub taken : StoredMessage → List StoredMessage → Bool
unfolding bytes_eq
taken m [] = false
taken m (x ∷ xs) = (x.seq == m.seq) || bytes_eq x.id m.id || taken m xs

abbrev pub key_hit : Option Bytes → List StoredMessage → Option StoredMessage
key_hit none ms = none
key_hit (some k) ms = find_dedup_hit k ms

-- INSERT … ON CONFLICT on the dedup key DO NOTHING: no row is affected where the key is there
-- already. A number or an id that is there already fails the statement.
unfoldable pub insert_message :
    StoredMessage → List StoredMessage → Result CommandError (List StoredMessage)
unfolding find_dedup_hit taken
insert_message m ms =
    if taken m ms then err (damage (codes "insert message")) else elim (key_hit m.dedup_key ms) [
      | some hit ↦ err (damage (codes "dedup pre-check missed an existing key"))
      | none ↦ ok (ms ++ (m ∷ []))
    ]

-- The number of messages and their bytes, counted up.
unfoldable pub bump_stats : ℕ → Option (ℕ × ℕ) → Option (ℕ × ℕ)
bump_stats size none = none
bump_stats size (some (msgs, bytes)) = some (suc msgs, bytes + size)

-- ResolveTraceID with no traceparent.
unfoldable pub resolve_trace_id : Bytes → Bytes → Bytes
unfolding bytes_eq
resolve_trace_id explicit minted = if bytes_eq explicit [] then minted else explicit

-- nullStr of the message's id, unless the window is zero.
unfoldable pub dedup_key : LoadedConfig → PublishReq → Option Bytes
unfolding bytes_eq
dedup_key lc r = if eq_ℤ lc.window (pos 0) || bytes_eq r.msg_id [] then none else some r.msg_id

-- `encode` is EncodeHeaders at the limits given; `new_id` and `minted` come from outside.
module _ (encode : Headers → Result Error Bytes) (new_id minted : Bytes) (now : ℤ)
    (lc : LoadedConfig) (r : PublishReq) (o : PublishOpts) where
  abbrev pub duplicate_ack : StoredMessage → Ack
  duplicate_ack orig = record {
    stream = lc.cfg.name;
    seq = orig.seq;
    id = orig.id;
    trace_id = orig.trace_id;
    duplicate = true;
    published_at = orig.published_at;
  }

  abbrev pub new_message : ℕ → Bytes → List StoredMessage → StoredMessage
  new_message seq hdr ms = record {
    seq = seq;
    id = if bytes_eq o.id_override [] then new_id else o.id_override;
    subject = r.subject;
    hdr = hdr;
    body = r.body;
    size = length r.body;
    published_at = published_at now (last_published ms);
    trace_id = resolve_trace_id r.trace_id minted;
    dedup_key = dedup_key lc r;
  }

  abbrev pub ack_of : StoredMessage → Ack
  ack_of m = record {
    stream = lc.cfg.name;
    seq = m.seq;
    id = m.id;
    trace_id = m.trace_id;
    duplicate = false;
    published_at = m.published_at;
  }

  abbrev pub publish_event : StoredMessage → List AuditEvent
  publish_event m =
      if o.suppress_event
      then []
      else record {
        ts = now;
        name = if bytes_eq o.event [] then codes "msg.publish" else o.event;
        seq = m.seq;
        msg_id = m.id;
      }
        ∷ []

  -- The steps from the allocation of the number on, each from the answer of the one before.
  abbrev pub inserted :
      ℕ
      → Bytes
      → Tables
      → Result CommandError (List StoredMessage)
      → Result CommandError (Tables × Ack)
  inserted seq hdr t (err e) = err e
  inserted seq hdr t (ok messages) =
      let m = new_message seq hdr t.messages in
      ok (
        record t {
          messages = messages;
          stats = bump_stats m.size t.stats;
          events = t.events ++ publish_event m;
        },
        ack_of m,
      )

  abbrev pub encoded : ℕ → Tables → Result Error Bytes → Result CommandError (Tables × Ack)
  encoded seq t (err e) = err (refused e)
  encoded seq t (ok hdr) =
      inserted seq hdr t (insert_message (new_message seq hdr t.messages) t.messages)

  abbrev pub allocated : Result CommandError (ℕ × Tables) → Result CommandError (Tables × Ack)
  allocated (err e) = err e
  allocated (ok (seq, t)) = encoded seq t (encode r.headers)

  unfoldable pub store_message : Tables → Result CommandError (Tables × Ack)
  unfolding alloc_seq last_published published_at insert_message bump_stats resolve_trace_id
      dedup_key bytes_eq
  store_message t = allocated (alloc_seq t)

  unfoldable pub answer : Tables → Option StoredMessage → Result CommandError (Tables × Ack)
  unfolding store_message
  answer t none = store_message t
  answer t (some orig) =
      let ev : AuditEvent = record {
        ts = now;
        name = codes "msg.dup";
        seq = orig.seq;
        msg_id = orig.id;
      } in
      ok (record t { events = t.events ++ (ev ∷ []) }, duplicate_ack orig)

  -- publishTxWithConfig
  unfoldable pub publish_tx_with_config : Tables → Result CommandError (Tables × Ack)
  unfolding validate_publish find_dedup_hit answer bytes_eq
  publish_tx_with_config t =
      let valid = map_err refused (validate_publish encode lc.cfg r) in
      let hit = find_dedup_hit r.msg_id t.messages in
      (if o.bypass_limits then ok tt else valid) >>= λ _. answer t (
        if not o.bypass_limits && (not (bytes_eq r.msg_id []) && ltb_ℤ (pos 0) lc.window)
        then hit
        else none)

-- publishTx, as a client's publish calls it
unfoldable pub publish_tx :
    (encode : Headers → Result Error Bytes) (new_id minted : Bytes) (now : ℤ) (name : Bytes)
    (r : PublishReq) (o : PublishOpts)
    → Tables
    → Result CommandError (Tables × Ack)
unfolding load_stream_config publish_tx_with_config
publish_tx encode new_id minted now name r o t =
    load_stream_config name t >>= λ lc. publish_tx_with_config encode new_id minted now lc r o t

abbrev pub entry :
    ℕ
    → Result CommandError (Tables × Ack)
    → (Tables → Result (ℕ × CommandError) (Tables × List Ack))
    → Result (ℕ × CommandError) (Tables × List Ack)
entry line (err e) next = err (line, e)
entry line (ok (t, ack)) next = next t >>= λ (t, acks). ok (t, ack ∷ acks)

-- The entries of a batch in their order, each with its new id and its minted trace id. A failure
-- gives none of them, and the place of the entry that failed.
unfoldable pub publish_all :
    (encode : Headers → Result Error Bytes) (now : ℤ) (lc : LoadedConfig) (line : ℕ)
    → List (PublishReq × Bytes × Bytes)
    → Tables
    → Result (ℕ × CommandError) (Tables × List Ack)
unfolding publish_tx_with_config client_publish
publish_all encode now lc line [] t = ok (t, [])
publish_all encode now lc line ((r, new_id, minted) ∷ reqs) t =
    entry line (publish_tx_with_config encode new_id minted now lc r client_publish t)
      (λ t. publish_all encode now lc (suc line) reqs t)

-- batchPublishCmd.Apply
unfoldable pub publish_batch :
    (encode : Headers → Result Error Bytes) (now : ℤ) (name : Bytes)
    → List (PublishReq × Bytes × Bytes)
    → Tables
    → Result (ℕ × CommandError) (Tables × List Ack)
unfolding load_stream_config publish_all
publish_batch encode now name reqs t =
    map_err (λ e. (0, e)) (load_stream_config name t) >>= λ lc. publish_all encode now lc 1 reqs t
