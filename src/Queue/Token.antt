-- ===== src/Queue/Token.antt =====
-- internal/queue/token.go: the ack token, its wire form, and the parser of that form.
pub mod RoundTrip
use messq.Common.{
  ℕ, ◌-◌, ◌^◌, List, [], ◌∷◌, ◌++◌, Bool, not, ◌&&◌, Option, none, some, Bytes, bytes_eq, cut, ltb,
  leb, ◌==◌, length, Result, ok, err, map_err, ◌>>=◌, ◌>>◌, require,
}
use messq.Common.Decimal.{format, parse_uint}
use messq.Errs.{unknown_token}
use messq.Subject.Grammar.{SubjectError}
use messq.Subject.Name.{validate_stream_name, validate_consumer_name}
use messq.Queue.Types.{Error, sentinel}

-- The counters of a token are never negative: a minted one carries columns that count from 1.
pub record Token : Type 0 where
  pub stream : Bytes
  pub consumer : Bytes
  pub seq : ℕ
  pub attempt : ℕ
  pub generation : ℕ

abbrev pub slash : ℕ
slash = b'/'

abbrev pub max_int64 : ℕ
max_int64 = 2 ^ 63 - 1

abbrev pub max_int32 : ℕ
max_int32 = 2 ^ 31 - 1

unfoldable pub string : Token → Bytes
string t =
    t.stream
    ++ slash
      ∷ (t.consumer
          ++ slash ∷ (format t.seq ++ slash ∷ (format t.attempt ++ slash ∷ format t.generation)))

abbrev pub max_token_len : ℕ
max_token_len = 171

abbrev pub bad_token : Error
bad_token = sentinel unknown_token

unfoldable pub parse_uint_field : Bytes → Result Error ℕ
parse_uint_field [] = err bad_token
parse_uint_field (c ∷ s) = do
  require (not (c == b'0')) bad_token
  elim (parse_uint (c ∷ s)) [ none ↦ err bad_token | some v ↦ ok v ]

-- A field that must lie in 1..most.
unfoldable pub counter_field : Bytes → ℕ → Result Error ℕ
counter_field field most = do
  v ← parse_uint_field field
  require (not (v == 0) && leb v most) bad_token
  ok v

-- strings.Cut, with the error for a text that has no separator.
unfoldable pub separated : Bytes × Option Bytes → Result Error (Bytes × Bytes)
separated (before, none) = err bad_token
separated (before, some after) = ok (before, after)

unfoldable pub cut_field : Bytes → Result Error (Bytes × Bytes)
unfolding separated
cut_field s = separated (cut slash s)

as_bad_token : SubjectError → Error
as_bad_token _ = bad_token

unfoldable pub parse_fields : Bytes → Bytes → Bytes → Bytes → Bytes → Result Error Token
unfolding as_bad_token
parse_fields stream consumer seq_str attempt_str gen_str = do
  map_err as_bad_token (validate_stream_name stream)
  map_err as_bad_token (validate_consumer_name consumer)
  seq ← counter_field seq_str max_int64
  attempt ← counter_field attempt_str max_int32
  generation ← counter_field gen_str max_int32
  ok (record {
    stream = stream;
    consumer = consumer;
    seq = seq;
    attempt = attempt;
    generation = generation;
  })

unfoldable pub split_fields : Bytes → Result Error Token
split_fields s = do
  (stream, after_stream) ← cut_field s
  (consumer, after_consumer) ← cut_field after_stream
  (seq_str, after_seq) ← cut_field after_consumer
  (attempt_str, gen_str) ← cut_field after_seq
  parse_fields stream consumer seq_str attempt_str gen_str

unfoldable pub parse_token : Bytes → Result Error Token
unfolding bytes_eq
parse_token s = do
  require (not (ltb max_token_len (length s))) bad_token
  require (not (bytes_eq s [])) bad_token
  split_fields s
