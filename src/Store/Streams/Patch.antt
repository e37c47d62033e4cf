-- ===== src/Store/Streams/Patch.antt =====
-- UpdateStream (internal/store/update.go, commands.go): a sparse patch of a stream's configuration, and
-- what it would cost in messages.
use messq.Common.{
  ℕ, suc, ◌+◌, List, [], ◌∷◌, ◌++◌, Bool, not, ◌&&◌, ◌||◌, Option, none, some, Bytes, codes, ℤ, pos,
  ltb_ℤ, sub64, mul64, if◌then◌else◌, Result, ok, err, ◌>>=◌, ◌>>◌, map_err,
}
use messq.Errs.{not_found}
use messq.Subject.Grammar.{Pattern, SubjectError, parse_set}
use messq.Subject.Match.{match_any}
use messq.Queue.Types.{
  sentinel, Retention, Discard, StreamConfig, Duration, milliseconds, millisecond,
}
use messq.Queue.Config.{Limits, validate_stream_config}
use messq.Queue.Update.{Usage, validate_update}
use messq.Store.Streams.Tables.{StreamRow, StoredMessage, Tables, CommandError, refused, damage}
use messq.Store.Streams.Admin.{
  marshal_subjects_set, texts_eq, row_of_config, config_of_row, stream_event,
}

-- A field that is absent leaves the stored value.
pub record StreamPatch : Type 0 where
  pub subjects : Option (List Bytes)
  pub retention : Option Retention
  pub max_msgs : Option ℤ
  pub max_bytes : Option ℤ
  pub max_age_ms : Option ℤ
  pub max_msg_size : Option ℤ
  pub discard : Option Discard
  pub dedup_window_ms : Option ℤ

abbrev pub laid {ℓ} : {A : Type ℓ} → Option A → A → A
laid none stored = stored
laid (some a) stored = a

abbrev pub laid_ms : Option ℤ → Duration → Duration
laid_ms none stored = stored
laid_ms (some ms) stored = mul64 ms (pos millisecond)

abbrev pub named {ℓ} : {A : Type ℓ} → Option A → Bytes → List Bytes → List Bytes
named none field rest = rest
named (some a) field rest = field ∷ rest

unfoldable pub apply_patch : StreamConfig → StreamPatch → StreamConfig × List Bytes
unfolding mul64
apply_patch before p = (
  record before {
    subjects = laid p.subjects before.subjects;
    retention = laid p.retention before.retention;
    max_msgs = laid p.max_msgs before.max_msgs;
    max_bytes = laid p.max_bytes before.max_bytes;
    max_age = laid_ms p.max_age_ms before.max_age;
    max_msg_size = laid p.max_msg_size before.max_msg_size;
    discard = laid p.discard before.discard;
    dedup_window = laid_ms p.dedup_window_ms before.dedup_window;
  },
  named p.subjects (codes "subjects") (
      named p.retention (codes "retention") (
        named p.max_msgs (codes "max_msgs") (
          named p.max_bytes (codes "max_bytes") (
            named p.max_age_ms (codes "max_age") (
              named p.max_msg_size (codes "max_msg_size") (
                named p.discard (codes "discard")
                  (named p.dedup_window_ms (codes "dedup_window") []))))))),
)

unfoldable pub subjects_changed : List Bytes → List Bytes → Bool
unfolding marshal_subjects_set
subjects_changed before after =
    not (texts_eq (marshal_subjects_set before) (marshal_subjects_set after))

-- A message of rank `rank` from the newest, where `rbytes` is the size of it and of all newer ones.
unfoldable pub at_risk_row : StreamConfig → ℤ → ℕ → ℕ → StoredMessage → Bool
unfolding milliseconds sub64
at_risk_row next now rank rbytes m =
    let age = milliseconds next.max_age in
    (ltb_ℤ (pos 0) age && ltb_ℤ m.published_at (sub64 now age))
    || ((ltb_ℤ (pos 0) next.max_msgs && ltb_ℤ next.max_msgs (pos rank))
        || (ltb_ℤ (pos 0) next.max_bytes && ltb_ℤ next.max_bytes (pos rbytes)))

-- The rank and the running size of the newest messages, and the count and size of those at risk.
pub record Risk : Type 0 where
  pub rank : ℕ
  pub rbytes : ℕ
  pub msgs : ℕ
  pub bytes : ℕ

unfoldable pub at_risk : StreamConfig → ℤ → List StoredMessage → Risk
unfolding at_risk_row
at_risk next now [] = record { rank = 0; rbytes = 0; msgs = 0; bytes = 0 }
at_risk next now (m ∷ ms) =
    let newer = at_risk next now ms in
    let rank = suc newer.rank in
    let rbytes = newer.rbytes + m.size in
    if at_risk_row next now rank rbytes m
    then record {
      rank = rank;
      rbytes = rbytes;
      msgs = suc newer.msgs;
      bytes = newer.bytes + m.size;
    }
    else record { rank = rank; rbytes = rbytes; msgs = newer.msgs; bytes = newer.bytes }

unfoldable pub measure_usage : StreamConfig → ℤ → List StoredMessage → ℕ × ℕ → Usage
unfolding at_risk
measure_usage next now messages (msgs, bytes) =
    let risk = at_risk next now messages in
    record {
      now_ms = now;
      msgs = pos msgs;
      bytes = pos bytes;
      at_risk_msgs = pos risk.msgs;
      at_risk_bytes = pos risk.bytes;
    }

abbrev pub unmatched : List Pattern → List StoredMessage → ℕ
unmatched set [] = 0
unmatched set (m ∷ ms) =
    let rest = unmatched set ms in if match_any set m.subject then rest else suc rest

abbrev pub count_in :
    List StoredMessage → Result SubjectError (List Pattern) → Result CommandError ℕ
count_in messages (err e) = err (damage (codes "compile narrowed subjects"))
count_in messages (ok set) = ok (unmatched set messages)

unfoldable pub count_unmatched : List Bytes → List StoredMessage → Result CommandError ℕ
unfolding match_any parse_set
count_unmatched patterns messages = count_in messages (parse_set patterns)

-- `info`, `msgs` and `bytes` are the source's Info.
pub record UpdateResult : Type 0 where
  pub info : StreamRow
  pub msgs : ℕ
  pub bytes : ℕ
  pub narrowed_msgs : ℕ
  pub fields : List Bytes

abbrev pub stats_of : Tables → Option (ℕ × ℕ) → Result CommandError (ℕ × ℕ)
stats_of t none = err (damage (codes "read stream_stats"))
stats_of t (some s) = ok s

-- A patch that names a field.
unfoldable pub patch_row :
    Limits
    → Bool
    → ℤ
    → Tables
    → StreamRow
    → StreamConfig
    → List Bytes
    → Result CommandError (Tables × UpdateResult)
unfolding validate_stream_config measure_usage validate_update row_of_config subjects_changed
    count_unmatched config_of_row
patch_row l allow_loss now t row next fields = do
  map_err refused (validate_stream_config next l)
  stats ← stats_of t t.stats
  map_err refused (
      validate_update (config_of_row row) next (measure_usage next now t.messages stats) allow_loss)
  narrowed ←
      if subjects_changed row.subjects next.subjects
      then count_unmatched next.subjects t.messages
      else ok 0
  ok (
    record t {
      row = some (row_of_config row.created_at (record next { name = row.name }));
      events = t.events ++ (stream_event now (codes "stream.update") ∷ []);
    },
    record {
      info = record (row_of_config row.created_at (record next { name = row.name })) {
        subjects = next.subjects;
      };
      msgs = stats.0;
      bytes = stats.1;
      narrowed_msgs = narrowed;
      fields = fields;
    },
  )

-- A patch that names none reads the counters and writes nothing.
abbrev pub patched :
    Limits
    → Bool
    → ℤ
    → Tables
    → StreamRow
    → StreamConfig × List Bytes
    → Result CommandError (Tables × UpdateResult)
patched l allow_loss now t row (next, []) = stats_of t t.stats >>= λ s.
    ok (t, record { info = row; msgs = s.0; bytes = s.1; narrowed_msgs = 0; fields = [] })
patched l allow_loss now t row (next, f ∷ fs) = patch_row l allow_loss now t row next (f ∷ fs)

abbrev pub update_row :
    Limits
    → Bool
    → ℤ
    → StreamPatch
    → Tables
    → Option StreamRow
    → Result CommandError (Tables × UpdateResult)
update_row l allow_loss now p t none = err (refused (sentinel not_found))
update_row l allow_loss now p t (some row) =
    patched l allow_loss now t row (apply_patch (config_of_row row) p)

-- updateStreamCmd.Apply
unfoldable pub update_stream :
    Limits → Bool → ℤ → StreamPatch → Tables → Result CommandError (Tables × UpdateResult)
unfolding apply_patch patch_row config_of_row
update_stream l allow_loss now p t = update_row l allow_loss now p t t.row
