-- ===== src/Queue/Token/RoundTrip.antt =====
-- Rendering and parsing an ack token undo one another.
use messq.Common.{
  ℕ, ◌≡◌, ◌≢◌, ◌≤◌, ◌<◌, ◌^◌, inl, inr, [], ◌∷◌, ◌++◌, true, false, some, Bytes, bytes_eq_iff, cut,
  cut-append, cut-some, length, length-append, Lacks, ok, Option-cases, >>=-eq-ok, arith,
}
use messq.Common.Decimal.{format, parse_uint}
use messq.Common.Decimal.RoundTrip.{
  parse-format, format-parse, format-head, format-Lacks, length-format-le,
}
use messq.Subject.Name.Facts.{name_facts}
use messq.Subject.Name.{validate_stream_name, validate_consumer_name}
use messq.Queue.Token.{
  Token, slash, max_int64, max_int32, max_token_len, string, parse_uint_field, counter_field,
  cut_field, parse_fields, split_fields, parse_token,
}

cut_field_inv :
    (s before after : Bytes) → cut_field s ≡ ok (before, after) → s ≡ before ++ slash ∷ after
unfolding cut_field
cut_field_inv s before after h = elim (Option-cases (cut slash s).1) [
  | inl e ↦ absurd (ground arith)
  | inr (rest, e) ↦ ground (arith, cut-some slash s {rest = rest} e)
]

field_inv : (field : Bytes) (v : ℕ) → parse_uint_field field ≡ ok v → format v ≡ field
unfolding parse_uint_field
field_inv [] v h = cc
field_inv (c ∷ s) v h = elim (Option-cases (parse_uint (c ∷ s))) [
  | inl e ↦ absurd (ground arith)
  | inr (w, e) ↦ ground (arith, format-parse c s {w = w} e)
]

counter_field_inv :
    (field : Bytes) (most v : ℕ)
    → counter_field field most ≡ ok v
    → (format v ≡ field) × (v ≢ 0) × (v ≤ most)
unfolding counter_field
counter_field_inv field most v h = ground (arith, field_inv field v)

-- What an accepted text's five fields are.
fields_inv :
    (stream consumer seq_str attempt_str gen_str : Bytes) (t : Token)
    → parse_fields stream consumer seq_str attempt_str gen_str ≡ ok t
    → (t.stream ≡ stream)
      × (t.consumer ≡ consumer)
      × (counter_field seq_str max_int64 ≡ ok t.seq)
      × (counter_field attempt_str max_int32 ≡ ok t.attempt)
      × (counter_field gen_str max_int32 ≡ ok t.generation)
unfolding parse_fields
fields_inv stream consumer seq_str attempt_str gen_str t h = ground arith

-- The whole text, from the fields that it was cut into.
joined :
    (s stream a consumer b seq_str c attempt_str gen_str : Bytes)
    → s ≡ stream ++ slash ∷ a
    → a ≡ consumer ++ slash ∷ b
    → b ≡ seq_str ++ slash ∷ c
    → c ≡ attempt_str ++ slash ∷ gen_str
    → (t : Token) → (t.stream ≡ stream)
    → (t.consumer ≡ consumer)
    → (format t.seq ≡ seq_str)
    → (format t.attempt ≡ attempt_str)
    → (format t.generation ≡ gen_str)
    → string t ≡ s
unfolding string
joined s stream a consumer b seq_str c attempt_str gen_str p q r u t same_stream same_consumer
      same_seq same_attempt same_generation =
    rw (p, q, r, u, same_stream, same_consumer, same_seq, same_attempt, same_generation)

fields_string :
    (stream consumer seq_str attempt_str gen_str : Bytes) (t : Token)
    → parse_fields stream consumer seq_str attempt_str gen_str ≡ ok t
    → (t.stream ≡ stream)
      × (t.consumer ≡ consumer)
      × (format t.seq ≡ seq_str)
      × (format t.attempt ≡ attempt_str)
      × (format t.generation ≡ gen_str)
fields_string stream consumer seq_str attempt_str gen_str t h =
    let (same_stream, same_consumer, same_seq, same_attempt, same_generation) =
      fields_inv stream consumer seq_str attempt_str gen_str t h in
    (
      same_stream,
      same_consumer,
      (counter_field_inv seq_str max_int64 t.seq same_seq).0,
      (counter_field_inv attempt_str max_int32 t.attempt same_attempt).0,
      (counter_field_inv gen_str max_int32 t.generation same_generation).0,
    )

-- What was split is put together again.
split_inv : (s : Bytes) (t : Token) → split_fields s ≡ ok t → string t ≡ s
unfolding split_fields
split_inv s t h =
    let ((stream, a), p, rest_stream) = >>=-eq-ok (cut_field s) _ h in
    let ((consumer, b), q, rest_consumer) = >>=-eq-ok (cut_field a) _ rest_stream in
    let ((seq_str, c), r, rest_seq) = >>=-eq-ok (cut_field b) _ rest_consumer in
    let ((attempt_str, gen_str), u, rest_attempt) = >>=-eq-ok (cut_field c) _ rest_seq in
    let (same_stream, same_consumer, same_seq, same_attempt, same_generation) =
      fields_string stream consumer seq_str attempt_str gen_str t rest_attempt in
    joined s stream a consumer b seq_str c attempt_str gen_str (cut_field_inv s stream a p)
      (cut_field_inv a consumer b q) (cut_field_inv b seq_str c r)
      (cut_field_inv c attempt_str gen_str u) t same_stream same_consumer same_seq same_attempt
      same_generation

-- Only the canonical rendering is accepted: an accepted text is what its token renders to.
pub string-parse_token : (s : Bytes) (t : Token) → parse_token s ≡ ok t → string t ≡ s
unfolding parse_token
string-parse_token s t h = split_inv s t (ground arith)

-- A token that the broker mints: valid names, and counters that start at 1 and fit their columns.
pub record IsMinted (t : Token) : Type 0 where
  pub stream_valid : validate_stream_name t.stream ≡ ok tt
  pub consumer_valid : validate_consumer_name t.consumer ≡ ok tt
  pub seq_range : (0 < t.seq) × (t.seq ≤ max_int64)
  pub attempt_range : (0 < t.attempt) × (t.attempt ≤ max_int32)
  pub generation_range : (0 < t.generation) × (t.generation ≤ max_int32)

field_ok : (v : ℕ) → 0 < v → v < 2 ^ 64 → parse_uint_field (format v) ≡ ok v
unfolding parse_uint_field
field_ok v p h =
    let (c, s, e, nonzero) = format-head v p h in
    let read : parse_uint (c ∷ s) ≡ some v = rw e at (parse-format v h) in
    rw e (ground (arith, read))

counter_field_ok :
    (v most : ℕ) → 0 < v → v ≤ most → most < 2 ^ 64 → counter_field (format v) most ≡ ok v
unfolding counter_field
counter_field_ok v most p h fits = ground (arith, field_ok v p (omega arith))

fields_ok :
    (t : Token)
    → IsMinted t
    → parse_fields t.stream t.consumer (format t.seq) (format t.attempt) (format t.generation)
      ≡ ok t
unfolding parse_fields
fields_ok t m = rw (
  m.stream_valid,
  m.consumer_valid,
  counter_field_ok t.seq max_int64 m.seq_range.0 m.seq_range.1 (omega arith),
  counter_field_ok t.attempt max_int32 m.attempt_range.0 m.attempt_range.1 (omega arith),
  counter_field_ok t.generation max_int32 m.generation_range.0 m.generation_range.1 (omega arith),
)

cut_field_ok : (s rest : Bytes) → Lacks slash s → cut_field (s ++ slash ∷ rest) ≡ ok (s, rest)
unfolding cut_field
cut_field_ok s rest h = rw (cut-append slash s rest h)

stream_facts :
    (t : Token) → IsMinted t → (t.stream ≢ []) × (length t.stream ≤ 64) × Lacks slash t.stream
stream_facts t m = name_facts t.stream true 64 (unfold validate_stream_name in m.stream_valid)

consumer_facts :
    (t : Token) → IsMinted t → (t.consumer ≢ []) × (length t.consumer ≤ 64) × Lacks slash t.consumer
consumer_facts t m =
    name_facts t.consumer false 64 (unfold validate_consumer_name in m.consumer_valid)

split_ok : (t : Token) → IsMinted t → split_fields (string t) ≡ ok t
unfolding split_fields string
split_ok t m = rw (cut_field_ok t.stream _ (stream_facts t m).2) (
    rw (cut_field_ok t.consumer _ (consumer_facts t m).2) (
      rw (cut_field_ok (format t.seq) _ (format-Lacks slash t.seq (omega arith))) (
        rw (cut_field_ok (format t.attempt) _ (format-Lacks slash t.attempt (omega arith)))
          (fields_ok t m))))

-- A minted token fits the bound that the parser sets.
string_bounds :
    (t : Token) → IsMinted t → (0 < length (string t)) × (length (string t) ≤ max_token_len)
unfolding string
string_bounds t m =
    let attempt_text = format t.attempt ++ slash ∷ format t.generation in
    let seq_text = format t.seq ++ slash ∷ attempt_text in
    let consumer_text = t.consumer ++ slash ∷ seq_text in
    omega (
      arith,
      length-append {0} t.stream (slash ∷ consumer_text),
      length-append {0} t.consumer (slash ∷ seq_text),
      length-append {0} (format t.seq) (slash ∷ attempt_text),
      length-append {0} (format t.attempt) (slash ∷ format t.generation),
      stream_facts t m,
      consumer_facts t m,
      length-format-le 18 t.seq (omega arith),
      length-format-le 9 t.attempt (omega arith),
      length-format-le 9 t.generation (omega arith),
    )

-- Every minted token is read back from its wire form.
pub parse_token-string : (t : Token) → IsMinted t → parse_token (string t) ≡ ok t
unfolding parse_token
parse_token-string t m = ground (arith, split_ok t m, string_bounds t m, bytes_eq_iff (string t) [])
