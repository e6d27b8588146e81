-- ===== src/Report/Invariants.antt =====
-- What every sequence of writes to the reports keeps.
pub mod Frames
pub mod Confirming
pub mod Hiding
pub mod Complaining
pub mod Acting
pub mod Soundness
pub mod Rows
pub mod Keyed
pub mod Keys
