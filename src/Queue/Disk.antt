-- ===== src/Queue/Disk.antt =====
-- internal/queue/disk.go: the disk-pressure state machine with two thresholds.
pub mod Hysteresis
use messq.Common.{List, [], ◌∷◌, ◌++◌, Bool, ℤ, pos, ltb_ℤ, leb_ℤ, if◌then◌else◌}

pub data DiskState : Type 0 where
  disk_ok disk_low : DiskState

-- `scaled` is `int64(float64(MinFree) * max(Recover, 1))`: the arithmetic on floats is left open.
pub record DiskPolicy : Type 0 where
  pub min_free : ℤ
  pub scaled : ℤ
  pub reserve : ℤ

pub data DiskAction : Type 0 where
  release_reserve restore_reserve reject_publishes allow_publishes emit : DiskAction

unfoldable pub recover_threshold : DiskPolicy → ℤ
recover_threshold p = if ltb_ℤ p.scaled p.min_free then p.min_free else p.scaled

unfoldable pub enter_actions : DiskPolicy → List DiskAction
enter_actions p =
    (if ltb_ℤ (pos 0) p.reserve then release_reserve ∷ [] else []) ++ reject_publishes ∷ emit ∷ []

unfoldable pub exit_actions : DiskPolicy → List DiskAction
exit_actions p =
    (if ltb_ℤ (pos 0) p.reserve then restore_reserve ∷ [] else []) ++ allow_publishes ∷ emit ∷ []

-- The `switch` on the current state.
unfoldable pub react : DiskState → ℤ → DiskPolicy → DiskState × List DiskAction
unfolding recover_threshold enter_actions exit_actions
react disk_ok free p = if ltb_ℤ free p.min_free then (disk_low, enter_actions p) else (disk_ok, [])
react disk_low free p =
    if leb_ℤ (recover_threshold p) free then (disk_ok, exit_actions p) else (disk_low, [])

-- A threshold of 0 or less disables the guard.
unfoldable pub next_disk_state : DiskState → ℤ → DiskPolicy → DiskState × List DiskAction
unfolding react
next_disk_state cur free p = if leb_ℤ p.min_free (pos 0) then (cur, []) else react cur free p
