-- ===== src/Queue/Examples/Streams.antt =====
-- The theorems on updates and publishes at concrete inputs.
use messq.Common.{◌≡◌, ◌≤◌, ◌↔◌, refl, [], ◌∷◌, true, false, Bytes, codes, pos, ok, length}
use messq.Queue.Types.{StreamConfig}
use messq.Queue.Config.{default_config, default_limits, validate_stream_config}
use messq.Queue.Update.{Usage, validate_update}
use messq.Queue.Publish.{validate_msg_id}

abbrev orders : StreamConfig
orders = default_config (codes "orders")

default_config_valid : validate_stream_config orders default_limits ≡ ok tt
unfolding validate_stream_config default_config default_limits
    messq.Subject.Name.validate_new_stream_name messq.Subject.Name.all_name_bytes
    messq.Subject.Name.name_byte messq.Subject.Name.starts_with_dot messq.Subject.Name.ends_with_dot
    messq.Subject.Name.has_two_dots messq.Subject.Grammar.parse_set messq.Subject.Utf8.valid_string
    messq.Common.cut messq.Subject.Grammar.classify
default_config_valid = refl

abbrev tighter : StreamConfig
tighter = record orders { max_msgs = pos 100 }

abbrev usage : Usage
usage = record {
  now_ms = pos 1_000;
  msgs = pos 60;
  bytes = pos 9_000;
  at_risk_msgs = pos 0;
  at_risk_bytes = pos 0;
}

tighter_accepted : validate_update orders tighter usage false ≡ ok tt
unfolding validate_update default_config
tighter_accepted = refl

-- A byte that is no ASCII passes.
accents_accepted : validate_msg_id (0xC3 ∷ 0xA9 ∷ []) ≡ ok tt
unfolding validate_msg_id
accents_accepted = refl
