-- ===== src/Evm/Submit.antt =====
-- `src/evm/submit.rs`: the two submission services. The services themselves are parameters.
use trading_aggregators.Prelude.{String, Bool, true, Option, some}
use trading_aggregators.Error.{venue}
use trading_aggregators.Action.{Action, AnyError, trade, map_err}
use trading_aggregators.Evm.Types.{Address, TransactionHash, Bytes}
use trading_aggregators.Evm.Node.{Provider, send_raw_transaction}

abbrev pub bloxroute_venue : String
bloxroute_venue = "bloxroute"

abbrev pub bloxroute_method : String
bloxroute_method = "robinhood_tx"

-- The transaction is hex without its prefix.
pub record BloxrouteParams : Type 0 where
  pub transaction : Bytes
  pub node_validation : Bool
  pub backrunme_reward_address : Option Address

pub record BloxrouteSubmitter : Type 0 where
  pub backrun_reward_address : Option Address

pub with_backrun_reward_address : BloxrouteSubmitter → Address → BloxrouteSubmitter
with_backrun_reward_address submitter address = record submitter {
  backrun_reward_address = some address;
}

-- `raw_request` at a method and its parameters, and `hex::encode`.
pub record RawRequest (W : Type 0) : Type 0 where
  pub raw_request : String → BloxrouteParams → Action W String TransactionHash
  pub encode_hex : Bytes → Bytes

-- `RpcSubmitter::submit` and `BloxrouteSubmitter::submit`
pub submit_rpc : {W : Type 0} → ⦃provider : Provider W⦄ → Bytes → Action W AnyError TransactionHash
submit_rpc signed = map_err trade (send_raw_transaction signed)

pub submit_bloxroute :
    {W : Type 0}
    → ⦃request : RawRequest W⦄ → BloxrouteSubmitter
    → Bytes
    → Action W AnyError TransactionHash
submit_bloxroute ⦃request⦄ submitter signed =
    map_err (λ _. trade (venue bloxroute_venue bloxroute_method))
      (request.raw_request bloxroute_method (record {
        transaction = request.encode_hex signed;
        node_validation = true;
        backrunme_reward_address = submitter.backrun_reward_address;
      }))
