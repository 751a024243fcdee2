-- ===== src/Compare.antt =====
-- Comparing payloads and versions: client/src/lib/diff.ts and updateCheck.ts.
pub mod Diff
pub mod Versions
