-- ===== src/Queue/Update.antt =====
-- internal/queue/update.go: whether an update of a stream may lose data.
pub mod Safety
use messq.Common.{
  Bool, true, false, not, ◌&&◌, ◌||◌, Bytes, bytes_eq, codes, ℤ, pos, ltb_ℤ, eq_ℤ, Result, ok,
  ◌>>=◌, ◌>>◌, require,
}
use messq.Errs.{bad_request}
use messq.Queue.Types.{Error, sentinel, would_lose_data, StreamConfig, Retention, limits, workqueue}

pub record Usage : Type 0 where
  pub now_ms : ℤ
  pub msgs : ℤ
  pub bytes : ℤ
  pub at_risk_msgs : ℤ
  pub at_risk_bytes : ℤ

-- `if test { if err := refuse(field); … }`
unfoldable pub refuse : Bool → Usage → Bool → Bytes → Result Error (Unit {0})
refuse allow_loss u test field =
    require (not test || allow_loss) (would_lose_data field u.at_risk_msgs u.at_risk_bytes)

-- The new limit is set, and the old one was unset or larger.
unfoldable pub tightens : ℤ → ℤ → Bool
tightens before after = not (eq_ℤ after (pos 0)) && (eq_ℤ before (pos 0) || ltb_ℤ after before)

unfoldable pub to_workqueue : Retention → Retention → Bool
to_workqueue limits workqueue = true
to_workqueue _ _ = false

unfoldable pub validate_update :
    StreamConfig → StreamConfig → Usage → Bool → Result Error (Unit {0})
unfolding refuse tightens to_workqueue bytes_eq
validate_update before after u allow_loss = do
  require (bytes_eq after.name before.name) (sentinel bad_request)
  refuse allow_loss u (tightens before.max_msgs after.max_msgs && ltb_ℤ after.max_msgs u.msgs)
      (codes "max_msgs")
  refuse allow_loss u (tightens before.max_bytes after.max_bytes && ltb_ℤ after.max_bytes u.bytes)
      (codes "max_bytes")
  refuse allow_loss u (tightens before.max_age after.max_age && ltb_ℤ (pos 0) u.at_risk_msgs)
      (codes "max_age")
  refuse allow_loss u (to_workqueue before.retention after.retention) (codes "retention")
