-- ===== src/Store/Streams/Admin.antt =====
-- createStreamCmd, deleteStreamCmd and the chunks of a deletion (internal/store/commands.go,
-- delete.go, streams.go), and the sweep of the dedup keys.
use messq.Common.{
  ℕ, zero, suc, List, [], ◌∷◌, ◌++◌, length, drop, Bool, true, false, ◌&&◌, ◌||◌, Option, none,
  some, Bytes, bytes_eq, codes, ℤ, pos, negsuc, sub_ℕ, pos_part, ltb_ℤ, eq_ℤ, ◌+ℤ◌, sub64, mul64,
  ltb, ◌==◌, if◌then◌else◌, Result, ok, err, ◌>>=◌,
}
use messq.Errs.{not_found}
use messq.Queue.Types.{
  sentinel, Retention, limits, workqueue, other_retention, Discard, old, new, other_discard,
  StreamConfig, milliseconds, millisecond,
}
use messq.Store.Streams.Tables.{
  StreamRow, StoredMessage, AuditEvent, Tables, CommandError, refused, stream_exists,
  case_collision, reap_in_progress, damage,
}

-- The order of Go strings.
unfoldable pub bytes_lt : Bytes → Bytes → Bool
bytes_lt [] [] = false
bytes_lt [] (b ∷ t) = true
bytes_lt (a ∷ s) [] = false
bytes_lt (a ∷ s) (b ∷ t) = ltb a b || (a == b && bytes_lt s t)

unfoldable pub insert_text : Bytes → List Bytes → List Bytes
unfolding bytes_lt bytes_eq
insert_text s [] = s ∷ []
insert_text s (t ∷ ts) =
    let rest = insert_text s ts in
    if bytes_lt s t then s ∷ t ∷ ts else if bytes_eq s t then t ∷ ts else t ∷ rest

-- slices.Sort and slices.Compact
unfoldable pub marshal_subjects_set : List Bytes → List Bytes
unfolding insert_text
marshal_subjects_set [] = []
marshal_subjects_set (s ∷ ss) = insert_text s (marshal_subjects_set ss)

abbrev pub texts_eq : List Bytes → List Bytes → Bool
texts_eq [] [] = true
texts_eq (a ∷ s) (b ∷ t) = bytes_eq a b && texts_eq s t
texts_eq _ _ = false

abbrev pub retention_eq : Retention → Retention → Bool
retention_eq limits limits = true
retention_eq workqueue workqueue = true
retention_eq (other_retention a) (other_retention b) = bytes_eq a b
retention_eq _ _ = false

abbrev pub discard_eq : Discard → Discard → Bool
discard_eq old old = true
discard_eq new new = true
discard_eq (other_discard a) (other_discard b) = bytes_eq a b
discard_eq _ _ = false

abbrev pub field_if : Bool → Bytes → List Bytes
field_if true name = []
field_if false name = name ∷ []

unfoldable pub config_diff : StreamConfig → StreamConfig → List Bytes
unfolding marshal_subjects_set bytes_eq
config_diff a b =
    field_if (texts_eq (marshal_subjects_set a.subjects) (marshal_subjects_set b.subjects))
      (codes "subjects")
    ++ (field_if (retention_eq a.retention b.retention) (codes "retention")
        ++ (field_if (eq_ℤ a.max_msgs b.max_msgs) (codes "max_msgs")
            ++ (field_if (eq_ℤ a.max_bytes b.max_bytes) (codes "max_bytes")
                ++ (field_if (eq_ℤ a.max_age b.max_age) (codes "max_age")
                    ++ (field_if (eq_ℤ a.max_msg_size b.max_msg_size) (codes "max_msg_size")
                        ++ (field_if (discard_eq a.discard b.discard) (codes "discard")
                            ++ field_if (eq_ℤ a.dedup_window b.dedup_window)
                                (codes "dedup_window")))))))

-- What INSERT INTO streams stores of a configuration, and what StreamInfo.Config reads back.
unfoldable pub row_of_config : ℤ → StreamConfig → StreamRow
unfolding marshal_subjects_set milliseconds
row_of_config ts c = record {
  name = c.name;
  subjects = marshal_subjects_set c.subjects;
  retention = c.retention;
  max_msgs = c.max_msgs;
  max_bytes = c.max_bytes;
  max_age_ms = milliseconds c.max_age;
  max_msg_size = c.max_msg_size;
  discard = c.discard;
  dedup_window_ms = milliseconds c.dedup_window;
  created_at = ts;
}

unfoldable pub config_of_row : StreamRow → StreamConfig
unfolding mul64
config_of_row r = record {
  name = r.name;
  subjects = r.subjects;
  retention = r.retention;
  max_msgs = r.max_msgs;
  max_bytes = r.max_bytes;
  max_age = mul64 r.max_age_ms (pos millisecond);
  max_msg_size = r.max_msg_size;
  discard = r.discard;
  dedup_window = mul64 r.dedup_window_ms (pos millisecond);
}

-- The high-water mark is at least -1, so that what is resumed at is no negative number.
unfoldable pub resume_seq : Option ℤ → ℕ
unfolding ◌+ℤ◌
resume_seq none = 1
resume_seq (some h) = pos_part (h +ℤ pos 1)

abbrev pub reaping : Option ℤ → Result CommandError (Unit {0})
reaping none = ok tt
reaping (some remaining) = err (reap_in_progress remaining)

unfoldable pub refuse_during_reap : Tables → Result CommandError (Unit {0})
refuse_during_reap t = reaping t.reap

abbrev pub stream_event : ℤ → Bytes → AuditEvent
stream_event ts name = record { ts = ts; name = name; seq = 0; msg_id = [] }

-- The three rows of a fresh name. A row of the counters that is there already fails the statement.
unfoldable pub insert_stream :
    StreamConfig → ℤ → Tables → Option ℕ → Option (ℕ × ℕ) → Result CommandError (Tables × Bool)
unfolding resume_seq row_of_config
insert_stream cfg ts t (some n) stats = err (damage (codes "insert stream_seq row"))
insert_stream cfg ts t none (some s) = err (damage (codes "insert stream_stats row"))
insert_stream cfg ts t none none = ok (
  record t {
    row = some (row_of_config ts cfg);
    next = some (resume_seq t.hwm);
    stats = some (0, 0);
    events = t.events ++ (stream_event ts (codes "stream.create") ∷ []);
  },
  false,
)

-- An identical configuration is answered as it stands; any other is refused with what differs.
abbrev pub existing : Tables → List Bytes → Result CommandError (Tables × Bool)
existing t [] = ok (t, true)
existing t (f ∷ fs) = err (stream_exists (f ∷ fs))

abbrev pub create_row :
    Option Bytes
    → StreamConfig
    → ℤ
    → Tables
    → Option StreamRow
    → Result CommandError (Tables × Bool)
create_row other cfg ts t (some r) = existing t (config_diff (config_of_row r) cfg)
create_row (some name) cfg ts t none = err (case_collision name)
create_row none cfg ts t none = insert_stream cfg ts t t.next t.stats

-- createStreamCmd.Apply: the tables, and whether the stream was there already. `other` is a stream
-- whose name differs from this one in letter case only.
unfoldable pub create_stream :
    Option Bytes → StreamConfig → ℤ → Tables → Result CommandError (Tables × Bool)
unfolding refuse_during_reap insert_stream config_diff config_of_row
create_stream other cfg ts t = refuse_during_reap t >>= λ _. create_row other cfg ts t t.row

-- The counter less one, where a missing row counts as 0.
unfoldable pub high_water_mark : Option ℕ → ℤ
high_water_mark none = negsuc 0
high_water_mark (some n) = sub_ℕ n 1

pub record DeleteResult : Type 0 where
  pub messages : ℕ
  pub bytes : ℕ
  pub consumers : ℕ

abbrev pub delete_rows : ℤ → Tables → Option (ℕ × ℕ) → Result CommandError (Tables × DeleteResult)
delete_rows ts t none = err (refused (sentinel not_found))
delete_rows ts t (some (msgs, bytes)) = ok (
  record t {
    row = none;
    next = none;
    stats = none;
    consumers = 0;
    hwm = some (high_water_mark t.next);
    reap = some (pos msgs);
    events = t.events ++ (stream_event ts (codes "stream.delete") ∷ []);
  },
  record { messages = msgs; bytes = bytes; consumers = t.consumers },
)

-- deleteStreamCmd.Apply
unfoldable pub delete_stream : ℤ → Tables → Result CommandError (Tables × DeleteResult)
unfolding high_water_mark
delete_stream ts t = delete_rows ts t t.stats

unfoldable pub delete_chunk_rows : ℕ
delete_chunk_rows = 10_000

-- reapChunkCmd.Apply: how many rows went, and whether the marker is cleared. The query has a LIMIT and
-- no order; the rows that it takes are here the first ones by number.
unfoldable pub reap_chunk : Tables → Tables × ℕ × Bool
unfolding delete_chunk_rows
reap_chunk t =
    let left = drop delete_chunk_rows t.messages in
    let short = ltb (length t.messages) delete_chunk_rows in
    (
      record t { messages = left; reap = if short then none else t.reap },
      if short then length t.messages else delete_chunk_rows,
      short,
    )

-- reapResumeCmd.Apply, for a name: it takes a chunk only of a name that has a marker.
abbrev pub marked_chunk : Tables → Option ℤ → Tables × ℕ × Bool
marked_chunk t none = (t, 0, true)
marked_chunk t (some remaining) = reap_chunk t

unfoldable pub reap_resume : Tables → Tables × ℕ × Bool
unfolding reap_chunk
reap_resume t = marked_chunk t t.reap

-- The loop of DeleteStream over its chunks, on fuel.
unfoldable pub reap_all : ℕ → Tables → Tables
unfolding reap_chunk
reap_all zero t = t
reap_all (suc n) t =
    let (after, removed, cleared) = reap_chunk t in
    let rest = reap_all n after in if cleared || (removed == 0) then after else rest

abbrev pub sweep_bound : ℕ
sweep_bound = 10_000

-- Whether sweepDedupCmd.Apply finds a key to clear.
unfoldable pub expired : ℤ → StoredMessage → Bool
expired before m = ltb_ℤ m.published_at before && elim m.dedup_key [ none ↦ false | some k ↦ true ]

-- It clears at most `sweep_bound` keys, of the oldest messages first: those are the first ones, since
-- every publish leaves the messages in the order of their times.
unfoldable pub sweep_rows : ℤ → ℕ → List StoredMessage → List StoredMessage × ℕ
unfolding expired
sweep_rows before budget [] = ([], 0)
sweep_rows before zero (m ∷ ms) = (m ∷ ms, 0)
sweep_rows before (suc budget) (m ∷ ms) =
    let kept = sweep_rows before (suc budget) ms in
    let cleared = sweep_rows before budget ms in
    if expired before m
    then (record m { dedup_key = none } ∷ cleared.0, suc cleared.1)
    else (m ∷ kept.0, kept.1)

abbrev pub sweep_window : ℤ → Tables → Option StreamRow → Result CommandError (Tables × ℕ)
sweep_window now t none = err (refused (sentinel not_found))
sweep_window now t (some r) =
    let (messages, cleared) = sweep_rows (sub64 now r.dedup_window_ms) sweep_bound t.messages in
    ok (record t { messages = messages }, cleared)

unfoldable pub sweep_dedup : ℤ → Tables → Result CommandError (Tables × ℕ)
unfolding sweep_rows sub64
sweep_dedup now t = sweep_window now t t.row
