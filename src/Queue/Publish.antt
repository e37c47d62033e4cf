-- ===== src/Queue/Publish.antt =====
-- internal/queue/publish.go: the checks of a publish.
pub mod Checks
use messq.Common.{
  ℕ, List, [], ◌∷◌, Bool, true, false, not, ◌&&◌, ◌||◌, Bytes, codes, bytes_eq, ℤ, pos, ltb_ℤ, ltb,
  leb, ◌==◌, length, Result, ok, err, map_err, ◌>>=◌, ◌>>◌, require, if◌then◌else◌,
}
use messq.Errs.{bad_request}
use messq.Subject.Grammar.{parse_subject, parse_set, strings}
use messq.Subject.Match.{match_any}
use messq.Queue.Types.{Error, sentinel, grammar, mismatch, body_too_large, StreamConfig}
use messq.Queue.Dlq.{Headers}

pub record PublishReq : Type 0 where
  pub subject : Bytes
  pub headers : Headers
  pub body : Bytes
  pub msg_id : Bytes
  pub trace_id : Bytes

-- c <= ' ' || c == 0x7f
unfoldable pub all_printable : Bytes → Bool
all_printable [] = true
all_printable (c ∷ s) = not (leb c b' ' || c == 0x7F) && all_printable s

abbrev pub max_msg_id_bytes : ℕ
max_msg_id_bytes = 256

unfoldable pub validate_msg_id : Bytes → Result Error (Unit {0})
unfolding all_printable bytes_eq
validate_msg_id s =
    let checked = (do
      require (not (ltb max_msg_id_bytes (length s))) (sentinel bad_request)
      require (all_printable s) (sentinel bad_request)) in
    if bytes_eq s [] then ok tt else checked

unfoldable pub validate_trace_id_token : Bytes → Result Error (Unit {0})
unfolding all_printable bytes_eq
validate_trace_id_token s =
    let checked = (do
      require (not (ltb (length s) 8)) (sentinel bad_request)
      require (not (ltb 128 (length s))) (sentinel bad_request)
      require (all_printable s) (sentinel bad_request)
      require (not (bytes_eq s (codes "00000000000000000000000000000000")))
          (sentinel bad_request)) in
    if bytes_eq s [] then ok tt else checked

-- `encode` is EncodeHeaders at the limits given, of which only the error is used.
unfoldable pub validate_publish :
    (Headers → Result Error Bytes) → StreamConfig → PublishReq → Result Error (Unit {0})
unfolding validate_msg_id validate_trace_id_token
validate_publish encode sc r = do
  subj ← map_err grammar (parse_subject r.subject)
  set ← map_err grammar (parse_set sc.subjects)
  require (match_any set subj) (mismatch r.subject (strings set))
  require (not (ltb_ℤ sc.max_msg_size (pos (length r.body))))
      (body_too_large (length r.body) sc.max_msg_size)
  encode r.headers >>= λ _. ok tt
  validate_msg_id r.msg_id
  validate_trace_id_token r.trace_id
