-- ===== src/Examples.antt =====
-- Concrete runs: a job of the local services from its request to its cancellation, a top-up, an SOS
-- request and its helper, a report and its votes; and the theorems applied to them.
pub mod Scenario
pub mod Rescue
pub mod Money
pub mod Setting
pub mod Cases
pub mod Calls
pub mod Reports
