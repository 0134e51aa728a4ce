-- ===== src/Solana/Client.antt =====
-- `src/solana/client/`: the trading client.
pub mod UsdValues
pub mod Routing
pub mod Swapping
pub mod PoolReads
pub mod Options
