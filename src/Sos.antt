-- ===== src/Sos.antt =====
-- SOS requests and helper mode: internal/domain/sos, internal/application/sos and the SOS repository.
pub mod Request
pub mod Helpers
pub mod Tables
pub mod Nearby
pub mod Service
pub mod Helping
pub mod Writes
pub mod Invariants
pub mod Interleaving
pub mod Runs
pub mod Access
pub mod Rescue
pub mod Race
