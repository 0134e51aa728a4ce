-- ===== src/Evm/Network.antt =====
-- `Network` of `src/evm/mod.rs`, `UniswapDeployment` of `src/evm/dexes/uniswap/mod.rs` and the chain
-- of `src/evm/robinhood.rs`.
use trading_aggregators.Prelude.{ℕ, String}
use trading_aggregators.Evm.Types.{Address}

pub record UniswapDeployment : Type 0 where
  pub weth : Address
  pub cswap_router : Address
  pub v2_factory : Address
  pub v3_factory : Address
  pub v3_quoter : Address
  pub v4_quoter : Address
  pub v4_state_view : Address
  pub v4_position_manager : Address
  pub eth_usd_pool : Address
  pub usd_decimals : ℕ

pub record Network : Type 0 where
  pub chain_id : ℕ
  pub name : String
  pub router : Address
  pub approval_proxy : Address
  pub uniswap : UniswapDeployment

abbrev pub chain_id : ℕ
chain_id = 4663

abbrev pub deployment : UniswapDeployment
deployment = record {
  weth = 0x0bd7d308f8e1639fab988df18a8011f41eacad73;
  cswap_router = 0xd8fbb0ded86fb6d593b598a44daa082deb329ade;
  v2_factory = 0x8bceaa40b9acdfaedf85adf4ff01f5ad6517937f;
  v3_factory = 0x1f7d7550b1b028f7571e69a784071f0205fd2efa;
  v3_quoter = 0x33e885ed0ec9bf04ecfb19341582aadcb4c8a9e7;
  v4_quoter = 0x8dc178efb8111bb0973dd9d722ebeff267c98f94;
  v4_state_view = 0xf3334192d15450cdd385c8b70e03f9a6bd9e673b;
  v4_position_manager = 0x58daec3116aae6d93017baaea7749052e8a04fa7;
  eth_usd_pool = 0x52e65b17fb6e5ba00ed806f37afcd2daa50271ca;
  usd_decimals = 6;
}

abbrev pub robinhood : Network
robinhood = record {
  chain_id = chain_id;
  name = "Robinhood";
  router = 0xb92fe925dc43a0ecde6c8b1a2709c170ec4fff4f;
  approval_proxy = 0xccc88a9d1b4ed6b0eaba998850414b24f1c315be;
  uniswap = deployment;
}
