-- ===== src/Transfer.antt =====
-- Messages on their way out of the page: a whole range for an export, and publishing again.
pub mod Export
pub mod Replay
