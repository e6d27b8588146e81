-- ===== src/LocalService.antt =====
-- internal/domain/localservice: the rules of the commercial side. Its children follow the files
-- provider.go, request.go and wallet.go; the others prove things about them.
pub mod Provider
pub mod Request
pub mod Offer
pub mod Wallet
pub mod Lifecycle
pub mod Steps
pub mod Packages
