-- ===== src/Controller.antt =====
-- pkg/controller: the service that the proxies of a cluster share.
pub mod Budgets
pub mod Events
pub mod Holds
pub mod Sidecars
