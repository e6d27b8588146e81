-- ===== src/Sos/Invariants.antt =====
-- What every sequence of writes keeps of the SOS tables.
pub mod Ends
pub mod Rows
pub mod Limits
pub mod Timeline
pub mod Told
pub mod Progress
