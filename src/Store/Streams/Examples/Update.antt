-- ===== src/Store/Streams/Examples/Update.antt =====
-- An update of a stream (internal/store/update.go, commands.go) at concrete tables.
use messq.Common.{
  ℕ, ◌≡◌, refl, inl, inr, List, [], ◌∷◌, length, Bool, true, false, Option, none, some, Bytes,
  codes, bytes_eq, ℤ, pos, Result, ok, arith, ◌<◌,
}
use messq.Queue.Config.{default_limits}
use messq.Store.Streams.Tables.{StreamRow, Tables}
use messq.Store.Streams.Admin.{stream_event}
use messq.Store.Streams.Patch.{UpdateResult, update_stream}
use messq.Store.Streams.Updated.{IsUpdated, update_stream-IsUpdated}
use messq.Store.Streams.Examples.{live, live_row, live-IsLive, ten_at_most}

abbrev live_after : StreamRow
live_after = record live_row { max_msgs = pos 10 }

abbrev updated : Tables
updated = record live {
  row = some live_after;
  events = stream_event (pos 950) (codes "stream.update") ∷ [];
}

abbrev updated_result : UpdateResult
updated_result = record {
  info = live_after;
  msgs = 1;
  bytes = 5;
  narrowed_msgs = 0;
  fields = codes "max_msgs" ∷ [];
}

ten_at_most_accepted :
    update_stream default_limits false (pos 950) ten_at_most live ≡ ok (updated, updated_result)
unfolding update_stream messq.Subject.Name.validate_new_stream_name
    messq.Subject.Name.all_name_bytes messq.Subject.Name.name_byte
    messq.Subject.Name.starts_with_dot messq.Subject.Name.ends_with_dot
    messq.Subject.Name.has_two_dots default_limits messq.Subject.Utf8.valid_string messq.Common.cut
    messq.Subject.Grammar.classify messq.Subject.Utf8.runes messq.Subject.Utf8.is_control
ten_at_most_accepted = refl

update_stream-IsUpdated_example : IsUpdated false live updated
update_stream-IsUpdated_example =
    update_stream-IsUpdated default_limits false (pos 950) ten_at_most live updated updated_result
      ten_at_most_accepted live-IsLive
