-- ===== src/Store/Streams.antt =====
-- internal/store: one stream's rows in the tables `streams`, `stream_seq`, `stream_stats`, `messages`
-- and `meta` (migrations/0001_init.sql), and the commands that write them (publish.go, batch.go,
-- commands.go, update.go).
pub mod Tables
pub mod Publish
pub mod Outcome
pub mod Retry
pub mod Admin
pub mod Times
pub mod Numbers
pub mod Accounts
pub mod Deletion
pub mod Patch
pub mod Updated
mod Examples
