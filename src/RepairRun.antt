-- ===== src/RepairRun.antt =====
-- lib/repair-runs/state-machine.ts: the states of a repair run.
pub mod Machine
pub mod Histories
mod Tests
