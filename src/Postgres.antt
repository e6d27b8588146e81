-- ===== src/Postgres.antt =====
-- internal/adapters/outbound/postgres/localservice_repository.go: the tables as lists of rows, one
-- function per repository method, and what every sequence of their transactions keeps.
pub mod Table
pub mod Rows
pub mod Store
pub mod Ledger
pub mod Providers
pub mod Requests
pub mod Matching
pub mod Accepting
pub mod Jobs
pub mod Topups
pub mod Balance
pub mod Frames
pub mod Moves
pub mod Others
pub mod Posts
pub mod Writes
pub mod LedgerWrites
pub mod Invariants
pub mod Repeats
pub mod Settled
pub mod Fee
pub mod Refund
pub mod Acceptance
