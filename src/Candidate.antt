-- ===== src/Candidate.antt =====
-- lib/investigations/policy.ts and lib/repair-candidates/policy.ts: which files of a repository may be
-- read, and which changes may be proposed.
pub mod Context
pub mod Rules
pub mod Proposal
pub mod Paths
pub mod Files
pub mod Accepted
pub mod Causes
pub mod PathRefusals
pub mod FileRefusals
pub mod Refusals
mod Tests
