-- ===== src/Service.antt =====
-- internal/application/localservice: the use cases, as programs of repository calls.
pub mod Program
pub mod Views
pub mod Customers
pub mod Working
pub mod Payments
pub mod Laws
pub mod Interleaving
pub mod Access
pub mod Profiles
pub mod Quota
pub mod Retries
pub mod Webhooks
pub mod Privacy
