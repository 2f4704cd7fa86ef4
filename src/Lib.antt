-- ===== src/Lib.antt =====
--
pub mod Common
pub mod Whitelist
pub mod Operator
pub mod Indexer
pub mod RateLimit
pub mod Web
pub mod Contract
pub mod Prover
pub mod Faucet
mod Tests
