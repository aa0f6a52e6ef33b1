-- ===== src/RepairLoop.antt =====
-- lib/repair-loops: when a repair loop counts as verified, and how long it goes on.
pub mod Objective
pub mod Decision
pub mod Recovery
mod Tests
