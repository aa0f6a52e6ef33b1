-- ===== src/Archive.antt =====
-- lib/repository-baselines/archive.ts: the extraction of a repository's tar stream.
pub mod Bytes
pub mod Reader
pub mod Pax
pub mod Entries
pub mod Consume
pub mod Paths
pub mod Cases
pub mod Sound
pub mod Rounds
pub mod Progress
pub mod Extraction
pub mod PaxFuel
mod Tests
