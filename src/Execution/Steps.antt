-- ===== src/Execution/Steps.antt =====
-- The transactions of external execution as steps of one database, which the global lock puts in
-- an order, and what each of them has passed when it commits.
pub mod Relation
pub mod Attempts
pub mod Leases
pub mod Reservations
pub mod Frames
