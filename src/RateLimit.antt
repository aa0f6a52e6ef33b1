-- ===== src/RateLimit.antt =====
-- lib/operations/http-rate-limit.ts: how many requests of a subject are let through in a window.
pub mod Buckets
pub mod Sweeping
pub mod Counting
pub mod Bound
pub mod Subjects
pub mod Attribution
mod RequestTests
mod Tests
