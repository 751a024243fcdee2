-- ===== src/Subjects.antt =====
-- Subjects and patterns: matching, covering, the decoder rules and the subject filter.
pub mod Match
pub mod Rules
