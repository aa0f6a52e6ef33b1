-- ===== src/Comparison.antt =====
-- lib/candidate-verifications/classification.ts: how a verification compares with its baseline.
pub mod Classification
pub mod Regression
mod Tests
