-- ===== src/Transport.antt =====
-- lib/external-execution/sandbox-transport.ts: which requests a permit lets its sandbox client send.
pub mod Policy
pub mod Safety
mod Tests
