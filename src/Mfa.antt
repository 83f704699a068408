-- ===== src/Mfa.antt =====
-- packages/db/src/mfa.ts: one-time codes by time, and the challenges of platform administrators.
pub mod Base32
pub mod Code
pub mod Challenge
mod Tests
