-- ===== src/Store/Dead/Provenance.antt =====
-- The headers of a dead letter: ProvenanceHeaders (internal/queue/dlq.go), and mergeCopyHeaders
-- (internal/store/dead.go). A map is an association list with one entry for each key.
use messq.Common.{
  ℕ, zero, suc, [], ◌∷◌, length, Bool, true, false, ◌||◌, Option, none, some, Bytes, bytes_eq,
  codes, ℤ, pos, negsuc, leb, if◌then◌else◌, Result, ok, err, ◌>>=◌,
}
use messq.Common.Decimal.{format}
use messq.Queue.Settle.{DeadCause, no_cause, max_deliver, terminated}
use messq.Queue.Dlq.{Headers, sanitize_reason}
use messq.Queue.Dead.{
  DeadCtx, DeadTrigger, no_trigger, by_ack_wait, by_nak, by_term, by_policy_lowered,
}

-- h[k] = v
unfoldable pub put : Bytes → Bytes → Headers → Headers
unfolding bytes_eq
put k v [] = (k, v) ∷ []
put k v ((j, w) ∷ h) = let rest = put k v h in if bytes_eq j k then (k, v) ∷ h else (j, w) ∷ rest

-- delete(h, k)
unfoldable pub delete_key : Bytes → Headers → Headers
unfolding bytes_eq
delete_key k [] = []
delete_key k ((j, w) ∷ h) =
    let rest = delete_key k h in if bytes_eq j k then rest else (j, w) ∷ rest

unfoldable pub has_key : Bytes → Headers → Bool
unfolding bytes_eq
has_key k [] = false
has_key k ((j, w) ∷ h) = bytes_eq j k || has_key k h

-- fmt's %d
abbrev pub format_ℤ : ℤ → Bytes
format_ℤ (pos n) = format n
format_ℤ (negsuc n) = b'-' ∷ format (suc n)

abbrev pub cause_text : DeadCause → Bytes
cause_text no_cause = []
cause_text max_deliver = codes "max_deliver"
cause_text terminated = codes "terminated"

abbrev pub trigger_text : DeadTrigger → Bytes
trigger_text no_trigger = []
trigger_text by_ack_wait = codes "ack_wait"
trigger_text by_nak = codes "nak"
trigger_text by_term = codes "term"
trigger_text by_policy_lowered = codes "policy_lowered"

abbrev pub last_reason_key : Bytes
last_reason_key = codes "Messq-Last-Reason"

abbrev pub published_at_key : Bytes
published_at_key = codes "Messq-Origin-Published-At"

-- Unless the text is empty.
abbrev pub put_some : Bytes → Bytes → Headers → Headers
put_some k [] h = h
put_some k (c ∷ v) h = put k (c ∷ v) h

abbrev pub put_reason : Bytes × Bool → Headers → Headers
put_reason (reason, false) h = put last_reason_key reason h
put_reason (reason, true) h =
    put (codes "Messq-Last-Reason-Truncated") (codes "true") (put last_reason_key reason h)

abbrev pub with_reason : Bytes → ℕ → Headers → Headers × Bool
with_reason [] most h = (h, false)
with_reason (c ∷ reason) most h =
    let out = sanitize_reason (c ∷ reason) most in (put_reason out h, out.1)

-- `time_text` is formatRFC3339MS. The keys are canonical as they stand.
module _ (time_text : ℤ → Bytes) where
  unfoldable pub provenance_headers : DeadCtx → ℤ → ℤ → ℕ → Headers × Bool
  unfolding put sanitize_reason format
  provenance_headers d published_at now_ms max_reason =
      let h = put (codes "Messq-Cause") (cause_text d.cause) (
        put (codes "Messq-Max-Deliver") (format_ℤ d.max_deliver) (
          put (codes "Messq-Attempts") (format d.attempts) (
            put published_at_key (time_text published_at) (
              put (codes "Messq-Origin-Generation") (format d.generation) (
                put (codes "Messq-Origin-Consumer") d.consumer (
                  put (codes "Messq-Origin-Seq") (format d.seq) (
                    put (codes "Messq-Origin-Stream") d.stream
                      (put (codes "Messq-Origin-Id") d.msg_id [])))))))) in
      let (h, truncated) =
        with_reason d.last_reason max_reason
          (put_some (codes "Messq-Trigger") (trigger_text d.trigger) h) in
      (put (codes "Messq-Dead-At") (time_text now_ms) h, truncated)

-- for k, v := range prov { merged[k] = v }
unfoldable pub lay_over : Headers → Headers → Headers
unfolding put
lay_over [] under = under
lay_over ((k, v) ∷ over) under = lay_over over (put k v under)

-- Why the headers could not be merged: what is stored is no JSON, or they do not fit.
pub data HeaderError : Type 0 where
  not_json no_room out_of_fuel : HeaderError

abbrev pub degrade_fuel : ℕ
degrade_fuel = 3

-- `marshal` and `unmarshal` are encoding/json on a map of texts, with its keys sorted.
module _ (marshal : Headers → Bytes) (cap_bytes : ℕ) where
  -- The loop that drops headers until they fit; each round of it drops one.
  unfoldable pub degrade : ℕ → Headers → Bool → Result HeaderError (Bytes × Bool)
  unfolding has_key delete_key
  degrade zero merged trimmed = err out_of_fuel
  degrade (suc fuel) merged trimmed =
      let no_reason = degrade fuel (delete_key last_reason_key merged) true in
      let no_time = degrade fuel (delete_key published_at_key merged) true in
      if leb (length (marshal merged)) cap_bytes
      then ok (marshal merged, trimmed)
      else if has_key last_reason_key merged
      then no_reason
      else if has_key published_at_key merged
      then no_time
      else err no_room

abbrev pub parsed_headers : Option Headers → Result HeaderError Headers
parsed_headers none = err not_json
parsed_headers (some h) = ok h

-- A NULL is the empty text.
abbrev pub user_headers : (Bytes → Option Headers) → Bytes → Result HeaderError Headers
user_headers unmarshal [] = ok []
user_headers unmarshal (c ∷ hdr) = parsed_headers (unmarshal (c ∷ hdr))

module _ (marshal : Headers → Bytes) (unmarshal : Bytes → Option Headers) (cap_bytes : ℕ) where
  unfoldable pub merge_copy_headers : Bytes → Headers → Result HeaderError (Bytes × Bool)
  unfolding degrade lay_over
  merge_copy_headers origin_hdr prov = user_headers unmarshal origin_hdr >>= λ user.
      degrade marshal cap_bytes degrade_fuel (lay_over prov user) false
