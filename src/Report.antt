-- ===== src/Report.antt =====
-- Incident reports, their confirmations and their moderation: internal/domain/report,
-- internal/domain/moderation, their use cases and their repositories.
pub mod Kinds
pub mod Details
pub mod Lifecycle
pub mod Input
pub mod Complaint
pub mod Tables
pub mod Confirm
pub mod Filter
pub mod Moderation
pub mod Service
pub mod Browse
pub mod Review
pub mod Writes
pub mod Invariants
pub mod Interleaving
pub mod Visible
pub mod Resend
pub mod Hidden
