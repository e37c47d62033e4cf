-- ===== src/Queue.antt =====
-- internal/queue: the pure planners and validators of the broker.
pub mod Types
pub mod Backoff
pub mod Token
pub mod Settle
pub mod Sweep
pub mod Consumer
pub mod Retention
pub mod Disk
pub mod Dlq
pub mod Dead
pub mod Config
pub mod Update
pub mod Publish
mod Examples
