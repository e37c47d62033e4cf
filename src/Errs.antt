-- ===== src/Errs.antt =====
-- internal/errs/errs.go: the closed set of error classes, and what the pure layers return as errors.
use messq.Common.{ℕ, List, [], ◌∷◌}

-- The sentinels, in the order of the registry.
pub data Sentinel : Type 0 where
  not_found conflict bad_request bad_subject too_large stream_full flow_control : Sentinel
  stale_ack unknown_token wrong_gen paused disk_full read_only shutting_down : Sentinel
  unauthorized forbidden locked schema_newer unavailable : Sentinel

pub Sentinel-discrete : Discrete Sentinel
Sentinel-discrete = hlevel

unfoldable pub all : List Sentinel
all =
    not_found ∷ conflict ∷ bad_request ∷ bad_subject ∷ too_large ∷ stream_full ∷ flow_control
    ∷ stale_ack ∷ unknown_token ∷ wrong_gen ∷ paused ∷ disk_full ∷ read_only ∷ shutting_down
    ∷ unauthorized ∷ forbidden ∷ locked ∷ schema_newer ∷ unavailable ∷ []

-- The place of a sentinel in the registry, which tells them apart.
abbrev pub rank : Sentinel → ℕ
rank not_found = 0
rank conflict = 1
rank bad_request = 2
rank bad_subject = 3
rank too_large = 4
rank stream_full = 5
rank flow_control = 6
rank stale_ack = 7
rank unknown_token = 8
rank wrong_gen = 9
rank paused = 10
rank disk_full = 11
rank read_only = 12
rank shutting_down = 13
rank unauthorized = 14
rank forbidden = 15
rank locked = 16
rank schema_newer = 17
rank unavailable = 18
