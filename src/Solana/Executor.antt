-- ===== src/Solana/Executor.antt =====
-- `src/solana/executor.rs`: building, sizing, signing, submitting and confirming a transaction.
pub mod Budget
pub mod Signing
pub mod Build
pub mod Confirming
pub mod Submitting
pub mod Balances
