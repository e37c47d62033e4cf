-- ===== src/Queue/Config.antt =====
-- internal/queue/config.go and name.go: the configuration of a stream.
use messq.Common.{
  ℕ, ◌*◌, [], ◌∷◌, Bool, true, false, not, ◌&&◌, Bytes, codes, has_suffix, ℤ, pos, ltb_ℤ, leb,
  length, Result, ok, map_err, ◌>>=◌, ◌>>◌, require,
}
use messq.Errs.{bad_request}
use messq.Subject.Grammar.{parse_set}
use messq.Subject.Name.{validate_new_stream_name}
use messq.Queue.Types.{
  Error, sentinel, grammar, reserved_name, Duration, second, Retention, limits, workqueue,
  other_retention, Discard, old, new, other_discard, StreamConfig,
}
use messq.Queue.Consumer.{in_range, reserved_suffix}

pub record Limits : Type 0 where
  pub max_msg_size_ceiling : ℤ
  pub max_header_bytes : ℕ
  pub max_headers : ℕ
  pub max_subjects : ℕ
  pub max_dedup_window : Duration

unfoldable pub default_limits : Limits
default_limits = record {
  max_msg_size_ceiling = pos 8_388_608;
  max_header_bytes = 4096;
  max_headers = 32;
  max_subjects = 32;
  max_dedup_window = pos (86_400 * second);
}

unfoldable pub default_config : Bytes → StreamConfig
default_config name = record {
  name = name;
  subjects = codes ">" ∷ [];
  retention = limits;
  max_msgs = pos 0;
  max_bytes = pos 0;
  max_age = pos (604_800 * second);
  max_msg_size = pos 1_048_576;
  discard = old;
  dedup_window = pos (120 * second);
}

unfoldable pub validate_stream_name : Bytes → Result Error (Unit {0})
unfolding has_suffix
validate_stream_name name = do
  require (not (has_suffix name reserved_suffix)) reserved_name
  map_err grammar (validate_new_stream_name name)

unfoldable pub known_retention : Retention → Bool
known_retention limits = true
known_retention workqueue = true
known_retention (other_retention _) = false

unfoldable pub known_discard : Discard → Bool
known_discard old = true
known_discard new = true
known_discard (other_discard _) = false

unfoldable pub validate_stream_config : StreamConfig → Limits → Result Error (Unit {0})
unfolding validate_stream_name known_retention known_discard
validate_stream_config c l = do
  validate_stream_name c.name
  require (leb 1 (length c.subjects) && leb (length c.subjects) l.max_subjects)
      (sentinel bad_request)
  map_err grammar (parse_set c.subjects) >>= λ _. ok tt
  require (known_retention c.retention) (sentinel bad_request)
  require (known_discard c.discard) (sentinel bad_request)
  require (not (ltb_ℤ c.max_msgs (pos 0)) && not (ltb_ℤ c.max_bytes (pos 0))) (sentinel bad_request)
  require (not (ltb_ℤ c.max_age (pos 0))) (sentinel bad_request)
  require (in_range (pos 1) l.max_msg_size_ceiling c.max_msg_size) (sentinel bad_request)
  require (in_range (pos 0) l.max_dedup_window c.dedup_window) (sentinel bad_request)
