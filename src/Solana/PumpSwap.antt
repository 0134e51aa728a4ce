-- ===== src/Solana/PumpSwap.antt =====
-- `src/solana/dexes/pumpswap/mod.rs`: the PumpSwap pool venue.
pub mod Layout
pub mod Quote
pub mod Instructions
pub mod Venue
pub mod SpotPrice
