-- ===== src/Service/Laws.antt =====
-- Every use case calls the repository with what Writes.Write asks of its arguments.
pub mod Reads
pub mod Customers
pub mod Working
pub mod Payments
