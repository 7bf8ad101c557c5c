-- ===== src/Contracts.antt =====
-- The Soroban contracts under contracts/.
pub mod AmmPool
pub mod Multisig
pub mod Timelock
pub mod Governance
pub mod Token
pub mod Messages
pub mod RuntimeGuard
pub mod Oracle
pub mod Flashloan
pub mod Proxy
pub mod Bridge
pub mod KaniPoc
pub mod ReentrancyGuard
