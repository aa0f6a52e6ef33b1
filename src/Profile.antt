-- ===== src/Profile.antt =====
-- lib/execution-profiles/detector.ts: which repositories can be run, and by which test runner.
pub mod Shell
pub mod Scripts
pub mod Detect
pub mod Printer
pub mod Order
pub mod Walks
pub mod Manifest
pub mod Ready
mod Tests
