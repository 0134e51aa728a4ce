-- ===== src/Solana.antt =====
-- The Solana side of the library (`src/solana/`).
pub mod Keys
pub mod Types
pub mod Common
pub mod Node
pub mod PumpFun
pub mod PumpSwap
pub mod SdkFee
pub mod Executor
pub mod LookupTables
pub mod Transaction
pub mod Chain
pub mod GasSponsor
pub mod ProviderFee
pub mod Client
pub mod Sources
pub mod Samples
