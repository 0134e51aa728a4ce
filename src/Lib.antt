-- ===== src/Lib.antt =====
-- The trading library of this repository. On Solana it quotes token trades on the Pump.fun and
-- PumpSwap venues and on aggregators, charges the application's and the gas sponsor's fees, and
-- builds, signs, submits and confirms the transaction; on EVM networks it takes a trade to Uniswap
-- or to Relay and signs, submits and confirms its transactions in turn. Paths are from the
-- repository's root.
--
-- The parts, as they call each other:
-- * Solana/Client is `src/solana/client/`. Client/Routing chooses a source, routes what the fees
--   leave of the trade, checks the source's candidate and charges the fees; Client/Swapping runs
--   this against the sources' adapters and hands the swap to the executor; Client/UsdValues
--   and Client/PoolReads are the value shown to the user, Client/Options the builder methods.
-- * Solana/SdkFee, Solana/ProviderFee and Solana/GasSponsor are `src/solana/sdk_fee.rs`,
--   `provider_fee.rs` and `gas_sponsor/`. GasSponsor/Cost holds the charge and the rewriting of the
--   reserved transfer, GasSponsor/Finalizing the simulations around it.
-- * Solana/Sources is `src/solana/sources/`: quotes, instructions and budgets that a service
--   proposes, with Rent for a sponsor's rent, and one module for each of Bloxroute, DFlow, Jupiter
--   and Relay (AppFee is `app_fee.rs`), whose child Adapter asks the service. Relay is
--   `src/aggregators/relay.rs`.
-- * Solana/Executor is `src/solana/executor.rs`: Budget (compute-budget requests and the place of
--   the reimbursement), Build, Signing, Submitting, Confirming, Balances.
-- * Solana/LookupTables is `src/solana/lookup_table.rs`.
-- * Solana/PumpFun and Solana/PumpSwap are `src/solana/dexes/pumpfun/mod.rs` and
--   `src/solana/dexes/pumpswap/mod.rs`: Layout (accounts), Quote, Instructions, Venue (reads,
--   caches and preparation). Solana/Common and Solana/Keys are `src/solana/dexes/common.rs`,
--   Solana/Types is `src/solana/types.rs` with `src/usd_value.rs`, Error is `src/error.rs`.
-- * Evm/Client is `src/evm/mod.rs`; Evm/Types, Node, Unsigned, Execution and Submit are the files
--   of these names in `src/evm/`, Evm/Network is `Network` of `mod.rs` with `robinhood.rs`. In
--   Execution, Confirming is `confirm` and Running is `execute_swap`.
-- * Evm/Relay is `src/evm/sources/relay/`, with its Transactions and its Adapter.
-- * Evm/Uniswap is `src/evm/dexes/uniswap/`: V2, V3, V4 and Router are the files of these names,
--   and of `mod.rs` Market is the choice of a pool and Quoting the quote and the preparation.
-- Prelude holds the shared words, bytes and lists, Text the printing and parsing of numbers. A
-- child module named Tests evaluates its parent at the concrete parameters of Solana/Samples or
-- Evm/Samples. A function keeps its name; a part of a function that has a name of its own here
-- stands above the function that uses it. Methods that change an object in place return the changed
-- object.
--
-- Conventions. Numbers are natural numbers with the wrap-around of their width written out; a
-- subtraction that the source saturates is the truncated one. A public key is the big-endian number
-- of its 32 bytes, a signature or blockhash a number. A formatted error keeps its fixed text. An
-- `f64` is its bit pattern, and its operations are parameters (Floats). `async` code is an action
-- on an abstract world (Action); a timeout around it is checked against the clock after each of its
-- waits; `tokio::join!` or `try_join!` runs its parts one after the other, and both are run before
-- either error counts. A `OnceLock` cache is a field of the venue's state.
--
-- Parameters stand for code of other packages: the Solana crates' addresses, hashes, SPL
-- instructions (Platform), compilation and sizes (Compiler), Borsh's primitive readers (Borsh), the
-- node and the clocks (AccountReads, TableReads, Chain), the alloy crate's provider, signing,
-- transactions and ABI (Provider, Alloy, Abi, AmountFloats), texts of keys and numbers (KeyText,
-- FloatText, AmountText), the services (RelayApi, BloxrouteApi, DFlowApi, JupiterApi), the caller's
-- signers, submitter and price feed, the order in which concurrent tasks end (Schedule) and the
-- time of day (TimeOfDay). The adapters of the six Solana sources are the interface Adapters of the
-- client. The laws that results assume of them are IsClock, for each of the two nodes: a read does
-- not turn the clock back, and a sleep takes its time; IsEquality: transactions that the alloy
-- crate finds equal are equal; and AreU64: the outputs that the sources offer fit 64 bits.
--
-- Fuel: the Solana confirmation loop has two rounds more than the deadline has poll intervals, the
-- EVM loop one round for each whole poll interval of the timeout and one more, which is enough on
-- such a clock.
--
-- Not modelled: HTTP requests and the decoding of JSON, whose decoded answers are the services'
-- data; the network calls of `src/solana/submit.rs` behind the executor's submitter; the text of a
-- Uniswap pool reference; connecting a node, and setters of keys and URLs; the facade of
-- `src/trading_aggregator.rs`; and slicing panics where a compiled message holds fewer keys than it
-- requires signatures.
pub mod Prelude
pub mod Error
pub mod Action
pub mod Floats
pub mod Text
pub mod Relay
pub mod Solana
pub mod Evm
