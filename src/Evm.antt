-- ===== src/Evm.antt =====
-- The EVM side of the library (`src/evm/`).
pub mod Types
pub mod Network
pub mod Node
pub mod Unsigned
pub mod Execution
pub mod Relay
pub mod Uniswap
pub mod Client
pub mod Submit
pub mod Samples
mod Tests
