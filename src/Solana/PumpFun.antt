-- ===== src/Solana/PumpFun.antt =====
-- `src/solana/dexes/pumpfun/mod.rs`: the Pump.fun bonding-curve venue.
pub mod Layout
pub mod Quote
pub mod Instructions
pub mod Venue
pub mod SpotPrice
