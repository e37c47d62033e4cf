-- ===== src/Store/Writer.antt =====
-- internal/store/writer.go: the single writer. It takes commands from a channel, applies a batch of
-- them in one transaction, and answers each caller after the commit. Logging and the observer are
-- left out, as are the hooks, which are nil outside tests.
pub mod Command
pub mod Database
pub mod Commit
pub mod Serial
pub mod Loop
pub mod Refinement
pub mod Crash
pub mod Assemble
pub mod Order
pub mod Drain
mod Examples
