-- ===== src/Main.antt =====
-- cmd/marketplace-vws/main.go: the lists that the server answers with.
pub mod Filter
pub mod Lists
pub mod Storages
pub mod Setup
pub mod Registered
pub mod Run
pub mod Readiness
