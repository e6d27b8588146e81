-- ===== src/Postgres/Invariants.antt =====
-- What every sequence of writes keeps, one module for each invariant.
pub mod Money
pub mod Active
pub mod Credits
pub mod Keys
pub mod Topups
pub mod Fees
pub mod Charges
pub mod Lifecycles
pub mod Agreements
pub mod Progress
