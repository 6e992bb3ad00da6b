-- ===== src/Scenarios.antt =====
-- Concrete orders, environments and runs on which the theorems are used.
pub mod Samples
mod Orders
mod Pages
mod Vaults
mod Chains
pub mod Passes
pub mod Services
pub mod Web
mod Hosts
