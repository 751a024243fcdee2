-- ===== src/Analysis.antt =====
-- What the page works out from recorded messages.
pub mod Latency
pub mod Repeats
pub mod Steps
