-- ===== src/Execution.antt =====
-- lib/external-execution: the authority that every external operation must hold.
pub mod Types
pub mod Account
pub mod Store
pub mod Fence
pub mod Reserve
pub mod Availability
pub mod Permit
pub mod Metered
pub mod Creation
pub mod Steps
pub mod Budget
pub mod Fencing
pub mod Attempts
pub mod Ambiguity
pub mod Completion
pub mod Revocation
mod Tests
