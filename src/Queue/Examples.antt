-- ===== src/Queue/Examples.antt =====
-- The theorems on internal/queue at concrete inputs.
mod Settle
mod Limits
mod Streams
