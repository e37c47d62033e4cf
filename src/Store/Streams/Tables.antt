-- ===== src/Store/Streams/Tables.antt =====
-- The rows of one stream (internal/store/migrations/0001_init.sql, publish.go, streams.go).
use messq.Common.{ℕ, List, Bool, false, Option, none, some, Bytes, bytes_eq, ℤ}
use messq.Queue.Types.{Error, Retention, Discard}

-- A row of `streams`, its durations in milliseconds.
pub record StreamRow : Type 0 where
  pub name : Bytes
  pub subjects : List Bytes
  pub retention : Retention
  pub max_msgs : ℤ
  pub max_bytes : ℤ
  pub max_age_ms : ℤ
  pub max_msg_size : ℤ
  pub discard : Discard
  pub dedup_window_ms : ℤ
  pub created_at : ℤ

-- A row of `messages`. A NULL in `hdr` is the empty text.
pub record StoredMessage : Type 0 where
  pub seq : ℕ
  pub id : Bytes
  pub subject : Bytes
  pub hdr : Bytes
  pub body : Bytes
  pub size : ℕ
  pub published_at : ℤ
  pub trace_id : Bytes
  pub dedup_key : Option Bytes

-- A row of `events`, without its detail text.
pub record AuditEvent : Type 0 where
  pub ts : ℤ
  pub name : Bytes
  pub seq : ℕ
  pub msg_id : Bytes

-- What the tables hold of one name: `next` is its row of `stream_seq`, `stats` that of
-- `stream_stats`, `hwm` and `reap` are its two rows of `meta`, `consumers` counts its consumers.
pub record Tables : Type 0 where
  pub row : Option StreamRow
  pub next : Option ℕ
  pub stats : Option (ℕ × ℕ)
  pub consumers : ℕ
  pub messages : List StoredMessage
  pub hwm : Option ℤ
  pub reap : Option ℤ
  pub events : List AuditEvent

-- How a command fails: with an error that the caller's doing explains, or with damage.
pub data CommandError : Type 0 where
  refused : Error → CommandError
  stream_exists : List Bytes → CommandError
  case_collision : Bytes → CommandError
  reap_in_progress : ℤ → CommandError
  damage : Bytes → CommandError

abbrev pub same_key : Bytes → Option Bytes → Bool
same_key k none = false
same_key k (some l) = bytes_eq l k
