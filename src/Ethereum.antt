-- ===== src/Ethereum.antt =====
-- The types of the `ethereum` library, as far as the code reads them: a transaction, in its three
-- versions, and its action. `signature` stands for the fields that only the library reads.
use edgeware_node.Prelude.Text.{Bytes}
use edgeware_node.Tracing.Types.{H160, U256}

pub data TransactionAction : Type 0 where
  call : H160 → TransactionAction
  create : TransactionAction

pub record LegacyTransaction : Type 0 where
  pub nonce : U256
  pub gas_price : U256
  pub gas_limit : U256
  pub action : TransactionAction
  pub value : U256
  pub input : Bytes
  pub signature : Bytes

pub record Eip2930Transaction : Type 0 where
  pub nonce : U256
  pub gas_price : U256
  pub gas_limit : U256
  pub action : TransactionAction
  pub value : U256
  pub input : Bytes
  pub signature : Bytes

pub record Eip1559Transaction : Type 0 where
  pub nonce : U256
  pub max_priority_fee_per_gas : U256
  pub max_fee_per_gas : U256
  pub gas_limit : U256
  pub action : TransactionAction
  pub value : U256
  pub input : Bytes
  pub signature : Bytes

pub data TransactionV2 : Type 0 where
  legacy : LegacyTransaction → TransactionV2
  eip2930 : Eip2930Transaction → TransactionV2
  eip1559 : Eip1559Transaction → TransactionV2
