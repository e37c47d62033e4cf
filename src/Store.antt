-- ===== src/Store.antt =====
-- internal/store: the transitions of a consumer's delivery rows, over tables held as lists.
pub mod Rows
pub mod Fetch
pub mod Writer
pub mod Streams
pub mod Claim
pub mod Settle
pub mod Sweep
pub mod Dead
pub mod Consumers
pub mod Lifecycle
mod Examples
