-- ===== src/Queue/Disk/Hysteresis.antt =====
-- The disk-pressure machine (internal/queue/disk.go) over a run of readings: what its actions leave
-- behind, and that it does not flap.
use messq.Common.{
  ℕ, suc, ◌≤◌, ◌≡◌, refl, List, [], ◌∷◌, ◌++◌, Bool, true, false, not, ◌&&◌, ℤ, pos, ◌<ℤ◌, ltb_ℤ,
  arith, All, inl, inr, ◌⊎◌, append-nil,
}
use messq.Queue.Disk.{
  DiskState, disk_ok, disk_low, DiskPolicy, DiskAction, release_reserve, restore_reserve,
  reject_publishes, allow_publishes, emit, recover_threshold, next_disk_state,
}

-- What the actions work on: the publish gate and the reserve file.
pub record Gate : Type 0 where
  pub rejecting : Bool
  pub reserve_held : Bool

unfoldable pub apply_action : DiskAction → Gate → Gate
apply_action release_reserve g = record g { reserve_held = false }
apply_action restore_reserve g = record g { reserve_held = true }
apply_action reject_publishes g = record g { rejecting = true }
apply_action allow_publishes g = record g { rejecting = false }
apply_action emit g = g

unfoldable pub apply_actions : List DiskAction → Gate → Gate
unfolding apply_action
apply_actions [] g = g
apply_actions (a ∷ as') g = apply_actions as' (apply_action a g)

abbrev pub is_low : DiskState → Bool
is_low disk_ok = false
is_low disk_low = true

-- Publishes are refused exactly while the disk is low, and a reserve that is asked for is held
-- exactly while it is not.
pub record IsInStep (p : DiskPolicy) (s : DiskState) (g : Gate) : Type 0 where
  pub gate : g.rejecting ≡ is_low s
  pub reserve : g.reserve_held ≡ (ltb_ℤ (pos 0) p.reserve && not (is_low s))

-- Every reading keeps the publish gate and the reserve in step with the state.
pub next_disk_state-IsInStep :
    (p : DiskPolicy) (s : DiskState) (g : Gate) (free : ℤ)
    → IsInStep p s g
    → IsInStep p (next_disk_state s free p).0 (apply_actions (next_disk_state s free p).1 g)
unfolding next_disk_state apply_actions
next_disk_state-IsInStep p s g free h = ground arith

-- The states and actions of a run of readings.
unfoldable pub readings : DiskPolicy → DiskState → List ℤ → DiskState × List DiskAction
readings p s [] = (s, [])
readings p s (free ∷ rest) =
    let (s', acts) = next_disk_state s free p in
    let (last, more) = readings p s' rest in (last, acts ++ more)

abbrev pub emits : List DiskAction → ℕ
emits [] = 0
emits (emit ∷ as') = suc (emits as')
emits (_ ∷ as') = emits as'

low_stays :
    (p : DiskPolicy) (free : ℤ)
    → free <ℤ recover_threshold p
    → next_disk_state disk_low free p ≡ (disk_low, [])
unfolding next_disk_state
low_stays p free h = ground arith

low_quiet :
    (p : DiskPolicy) (rs : List ℤ)
    → All (λ free. free <ℤ recover_threshold p) rs
    → readings p disk_low rs ≡ (disk_low, [])
unfolding readings
low_quiet p [] h = refl
low_quiet p (free ∷ rs) (here, there) = rw (low_stays p free here, low_quiet p rs there)

ok_step :
    (p : DiskPolicy) (free : ℤ)
    → (next_disk_state disk_ok free p ≡ (disk_ok, []))
      ⊎ (((next_disk_state disk_ok free p).0 ≡ disk_low)
          × (emits (next_disk_state disk_ok free p).1 ≡ 1))
unfolding next_disk_state
ok_step p free = ground arith

-- Readings that stay below the recovery threshold cause one transition at most.
pub readings-emit_once :
    (p : DiskPolicy) (rs : List ℤ)
    → All (λ free. free <ℤ recover_threshold p) rs
    → emits (readings p disk_ok rs).1 ≤ 1
unfolding readings
readings-emit_once p [] h = omega arith
readings-emit_once p (free ∷ rs) (here, there) = elim (ok_step p free) [
  | inl e ↦ rw e (readings-emit_once p rs there)
  | inr (low, one) ↦ rw (low, low_quiet p rs there, append-nil, one) (omega arith)
]
