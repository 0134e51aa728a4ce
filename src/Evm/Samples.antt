-- ===== src/Evm/Samples.antt =====
-- Concrete stand-ins for what the EVM side takes as a parameter. The world is a clock in milliseconds.
use trading_aggregators.Prelude.{
  ℕ, ◌+◌, ◌≡◌, Bool, true, false, ◌&&◌, none, some, List, [], ◌∷◌, ◌==◌, is_empty, refl, arith,
}
use trading_aggregators.Prelude.Bytes.{bytes_eq, eq_of_bytes_eq}
use trading_aggregators.Error.{ok}
use trading_aggregators.Evm.Types.{Transaction, PreparedSwap, Trade, native, token}
use trading_aggregators.Evm.Network.{Network, robinhood}
use trading_aggregators.Evm.Node.{Provider, IsClock}
use trading_aggregators.Evm.Unsigned.{TxKind, create, call, TxEip1559, Alloy, IsEquality}
use trading_aggregators.Evm.Relay.{AmountText}

instance abbrev pub sample_network : Network
sample_network = robinhood

-- A node on which every transaction has succeeded.
instance abbrev pub sample_provider : Provider ℕ
sample_provider = record {
  get_chain_id = λ w. (ok 4663, w);
  get_pending_transaction_count = λ address w. (ok 7, w);
  call = λ to input w. (ok [], w);
  estimate_gas = λ tx w. (ok 21_000, w);
  estimate_eip1559_fees = λ w. (ok (100, 2), w);
  get_transaction_receipt = λ hash w. (ok (some true), w + 20);
  send_raw_transaction = λ signed w. (ok 77, w);
  now = λ w. w;
  sleep = λ d w. w + d;
}

pub sample_provider-IsClock : IsClock sample_provider
sample_provider-IsClock = record {
  receipt_keeps = λ hash w. omega arith;
  sleep_takes = λ d w. omega arith;
}

-- Texts of amounts that all read as 5.
instance abbrev pub sample_amounts : AmountText
sample_amounts = record { from_str_radix = λ text radix. ok 5 }

abbrev pub sample_transaction : Transaction
sample_transaction = record {
  chain_id = 4663;
  from = 11;
  to = 0xb92fe925dc43a0ecde6c8b1a2709c170ec4fff4f;
  input = 1 ∷ 2 ∷ 3 ∷ 4 ∷ [];
  value = 1_000;
  gas = none;
  gas_price = none;
  max_fee_per_gas = none;
  max_priority_fee_per_gas = none;
}

abbrev pub sample_trade : Trade
sample_trade = record {
  wallet = 11;
  input = native;
  output = token 12;
  amount = 1_000;
  slippage_bps = 100;
  quote_source = none;
  pool = none;
}

abbrev pub sample_prepared : PreparedSwap
sample_prepared = record {
  quote = record {
    chain_id = 4663;
    source = "relay";
    input = native;
    output = token 12;
    in_amount = 1_000;
    expected_out = 500;
    min_out = 490;
    application_fee = none;
    usd_value = none;
  };
  wallet = 11;
  transactions = sample_transaction ∷ [];
  created_at = 0;
}

-- The sample transaction as it is filled.
abbrev pub sample_filled : TxEip1559
sample_filled = record {
  chain_id = 4663;
  nonce = 7;
  gas_limit = 25_200;
  max_fee_per_gas = 100;
  max_priority_fee_per_gas = 2;
  to = call 0xb92fe925dc43a0ecde6c8b1a2709c170ec4fff4f;
  value = 1_000;
  access_list = [];
  input = 1 ∷ 2 ∷ 3 ∷ 4 ∷ [];
}

abbrev same_kind : TxKind → TxKind → Bool
same_kind create create = true
same_kind create (call b) = false
same_kind (call a) create = false
same_kind (call a) (call b) = a == b

-- Equality of transactions without access lists.
abbrev same_tx : TxEip1559 → TxEip1559 → Bool
same_tx a b =
    a.chain_id == b.chain_id
    && (a.nonce == b.nonce
        && (a.gas_limit == b.gas_limit
            && (a.max_fee_per_gas == b.max_fee_per_gas
                && (a.max_priority_fee_per_gas == b.max_priority_fee_per_gas
                    && (same_kind a.to b.to
                        && (a.value == b.value
                            && (is_empty a.access_list
                                && (is_empty b.access_list && bytes_eq a.input b.input))))))))

eq_of_same_kind : (a b : TxKind) → same_kind a b ≡ true → a ≡ b
eq_of_same_kind create create h = refl
eq_of_same_kind create (call b) h = absurd (ground arith)
eq_of_same_kind (call a) create h = absurd (ground arith)
eq_of_same_kind (call a) (call b) h = ground arith

-- Every signed text is the sample transaction, signed by wallet 11.
instance abbrev pub sample_alloy : Alloy
sample_alloy = record {
  eip2718_decode = λ signed. ok (record { tx = sample_filled; signature = []; hash = 77 }, []);
  eip2718_encode = λ tx signature. signature;
  encode_for_signing = λ tx. tx.input;
  signature_hash = λ tx. tx.nonce;
  recover_signer = λ signed. ok 11;
  eq = same_tx;
}

empty_of : {A : Type 0} (xs ys : List A) → is_empty xs ≡ true → is_empty ys ≡ true → xs ≡ ys
empty_of [] [] h h' = refl
empty_of [] (y ∷ ys) h h' = absurd (ground arith)
empty_of (x ∷ xs) ys h h' = absurd (ground arith)

pub sample_alloy-IsEquality : IsEquality sample_alloy
sample_alloy-IsEquality a b h = ground (
  arith,
  eq_of_same_kind a.to b.to,
  empty_of a.access_list b.access_list,
  eq_of_bytes_eq a.input b.input,
)
