-- ===== src/Solana/Chain.antt =====
-- What the executor uses of the node, the clock, the wallets and the transaction formats; the Solana
-- crates and the caller's own signer, submitter and price feed define these.
use trading_aggregators.Prelude.{ℕ, ◌+◌, ◌≤◌, String, Bool, Option, List}
use trading_aggregators.Error.{Result}
use trading_aggregators.Action.{Action}
use trading_aggregators.Solana.Keys.{Pubkey, Instruction}
use trading_aggregators.Solana.Types.{LookupTable, Tip}
use trading_aggregators.Solana.Transaction.{Transaction, Message, Simulation}
use trading_aggregators.Solana.GasSponsor.Cost.{SolUsdcPrice}

-- Compiling and measuring; `Config` is V1's header configuration.
pub record Compiler (Config : Type 0) : Type 0 where
  pub try_compile_v0 : Pubkey → List Instruction → List LookupTable → ℕ → Result String Message
  pub try_compile_v1 : Pubkey → List Instruction → ℕ → Config → Result String Message
  pub validate_v1 : Message → Result String (Unit {0})
  pub serialized_size : Transaction → Result String ℕ
  pub max_v1_transaction_size : ℕ

-- The node and the clocks, in milliseconds and, for the time of day, nanoseconds. The flag of a
-- simulation says whether the node replaces the blockhash.
pub record Chain (W : Type 0) : Type 0 where
  pub get_latest_blockhash : Action W String ℕ
  pub simulate_transaction : Transaction → Bool → Action W String Simulation
  pub get_signature_status : ℕ → Action W String (Option Bool)
  pub get_balance : Pubkey → Action W String ℕ
  pub now : W → ℕ
  pub system_time : W → ℕ
  pub sleep : ℕ → W → W

abbrev pub Signer : Type 0 → Type 0
Signer W = Pubkey → Transaction → Action W String ℕ

pub record Submitter (W : Type 0) : Type 0 where
  pub default_tip : Option Tip
  pub submit : Transaction → Action W String ℕ

-- The price feed under its timeout, whose expiry is `none`.
abbrev pub PriceFeed : Type 0 → Type 0
PriceFeed W = Action W (Option String) SolUsdcPrice

-- The monotonic clock: a read of the node does not turn it back, and a sleep takes its time.
pub record IsClock {W : Type 0} (chain : Chain W) : Type 0 where
  pub status_keeps :
      (sig : ℕ) (w : W) → chain.now w ≤ chain.now ((chain.get_signature_status sig w).1)
  pub sleep_takes : (d : ℕ) (w : W) → chain.now w + d ≤ chain.now (chain.sleep d w)
