-- ===== src/TxPool/Views.antt =====
-- client/rpc-core/txpool/src/types: the two views of a transaction in the pool.
use edgeware_node.Prelude.{Option, none, some}
use edgeware_node.Prelude.Text.{Bytes}
use edgeware_node.Tracing.Types.{H160, H256, U256}
use edgeware_node.Ethereum.{TransactionAction, TransactionV2}

-- The trait `Get`: the hash, the sender and the transaction.
pub record GetT (T : Type 0) : Type 0 where
  pub get : H256 → H160 → TransactionV2 → T

pub record Transaction : Type 0 where
  pub hash : H256
  pub nonce : U256
  pub block_hash : Option H256
  pub block_number : Option U256
  pub from : H160
  pub to : Option H160
  pub value : U256
  pub gas_price : U256
  pub gas : U256
  pub input : Bytes
  pub transaction_index : Option U256

pub record Summary : Type 0 where
  pub to : Option H160
  pub value : U256
  pub gas : U256
  pub gas_price : U256

abbrev pub recipient : TransactionAction → Option H160
recipient (TransactionAction.call to) = some to
recipient TransactionAction.create = none

-- The fields that `Transaction::get` picks: nonce, action, value, gas price, gas limit, input.
abbrev pub Picked : Type 0
Picked = U256 × TransactionAction × U256 × U256 × U256 × Bytes

content_fields : TransactionV2 → Picked
content_fields (TransactionV2.legacy t) =
    (t.nonce, t.action, t.value, t.gas_price, t.gas_limit, t.input)
content_fields (TransactionV2.eip2930 t) =
    (t.nonce, t.action, t.value, t.gas_price, t.gas_limit, t.input)
content_fields (TransactionV2.eip1559 t) =
    (t.nonce, t.action, t.value, t.max_fee_per_gas, t.gas_limit, t.input)

content_of : H256 → H160 → Picked → Transaction
content_of hash from_address (nonce, action, value, gas_price, gas_limit, input) = record {
  hash = hash;
  nonce = nonce;
  block_hash = none;
  block_number = none;
  from = from_address;
  to = recipient action;
  value = value;
  gas_price = gas_price;
  gas = gas_limit;
  input = input;
  transaction_index = none;
}

-- `Transaction::get`.
unfoldable pub get_transaction : H256 → H160 → TransactionV2 → Transaction
unfolding content_fields content_of
get_transaction hash from_address txn = content_of hash from_address (content_fields txn)

-- The fields that `Summary::get` picks: action, value, gas price, gas limit.
summary_fields : TransactionV2 → TransactionAction × U256 × U256 × U256
summary_fields (TransactionV2.legacy t) = (t.action, t.value, t.gas_price, t.gas_limit)
summary_fields (TransactionV2.eip2930 t) = (t.action, t.value, t.gas_price, t.gas_limit)
summary_fields (TransactionV2.eip1559 t) = (t.action, t.value, t.max_fee_per_gas, t.gas_limit)

summary_of : TransactionAction × U256 × U256 × U256 → Summary
summary_of (action, value, gas_price, gas_limit) = record {
  to = recipient action;
  value = value;
  gas = gas_limit;
  gas_price = gas_price;
}

-- `Summary::get`.
unfoldable pub get_summary : H256 → H160 → TransactionV2 → Summary
unfolding summary_fields summary_of
get_summary hash from_address txn = summary_of (summary_fields txn)

instance unfoldable pub transaction_view : GetT Transaction
transaction_view = record { get = get_transaction }

instance unfoldable pub summary_view : GetT Summary
summary_view = record { get = get_summary }
