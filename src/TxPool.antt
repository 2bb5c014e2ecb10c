-- ===== src/TxPool.antt =====
-- client/rpc/txpool/src/lib.rs: the transactions of the pool by sender and nonce.
-- The pool, the runtime API and the cryptography are libraries: `Pool` holds what they answer. A
-- `HashMap` is only looked up, so the order of its entries does not matter.
pub mod Views
pub mod Lookup
pub mod Agreement
use edgeware_node.Prelude.{ℕ, List, [], ◌∷◌, map, Option, none, some, ◌==◌, if◌then◌else◌}
use edgeware_node.Prelude.Text.{Bytes}
use edgeware_node.Prelude.Results.{Result, ok, err, ◌>>=◌, map_err}
use edgeware_node.BTreeMap
use edgeware_node.BTreeMap.{BTreeMap}
use edgeware_node.Tracing.Types.{H160, H256, U256}
use edgeware_node.Ethereum.{
  LegacyTransaction, Eip2930Transaction, Eip1559Transaction, TransactionV2,
}
use edgeware_node.Runtime.PoolApi.{TxPoolResponse}
use edgeware_node.TxPool.Views.{GetT, Transaction, Summary, transaction_view, summary_view}

abbrev pub TransactionMap : Type 0 → Type 0
TransactionMap T = BTreeMap (BTreeMap T)

pub record TxPoolResult (T : Type 0) : Type 0 where
  pub pending : T
  pub queued : T

pub data Error : Type 0 where
  -- "failed to retrieve Runtime Api version"
  version_failed : Error
  -- "fetch runtime extrinsic filter failed: {:?}"
  filter_failed : Error

abbrev pub RpcResult : Type 0 → Type 0
RpcResult A = Result A Error

pub record TxPoolResponseLegacy : Type 0 where
  pub ready : List LegacyTransaction
  pub future : List LegacyTransaction

pub record Crypto : Type 0 where
  pub hash : TransactionV2 → H256
  pub public_key : TransactionV2 → Option Bytes
  -- `H160::from(H256::from_slice(Keccak256::digest(&pk)))`
  pub address : Bytes → H160

pub record Pool (Extrinsic : Type 0) : Type 0 where
  pub ready : List Extrinsic
  pub futures : List (H256 × Extrinsic)
  pub ready_count : ℕ
  pub future_count : ℕ
  pub api_version : Result (Option ℕ) (Unit {0})
  pub extrinsic_filter_before_version_2 :
      List Extrinsic → List Extrinsic → Result TxPoolResponseLegacy (Unit {0})
  pub extrinsic_filter : List Extrinsic → List Extrinsic → Result TxPoolResponse (Unit {0})

unfoldable pub nonce_of : TransactionV2 → U256
nonce_of (TransactionV2.legacy t) = t.nonce
nonce_of (TransactionV2.eip2930 t) = t.nonce
nonce_of (TransactionV2.eip1559 t) = t.nonce

unfoldable pub from_address : Crypto → TransactionV2 → H160
from_address crypto txn = elim (crypto.public_key txn) [ some pk ↦ crypto.address pk | none ↦ 0 ]

abbrev pub map_or_new : {T : Type 0} → Option (BTreeMap T) → BTreeMap T
map_or_new none = []
map_or_new (some m) = m

module _ {T : Type 0} ⦃view : GetT T⦄ (crypto : Crypto) where
  -- `entry(from_address).or_insert_with(HashMap::new).insert(nonce, T::get(..))`
  unfoldable pub add_transaction : TransactionV2 → TransactionMap T → TransactionMap T
  add_transaction txn txns =
      let from = from_address crypto txn in
      BTreeMap.insert from
        (BTreeMap.insert (nonce_of txn) (view.get (crypto.hash txn) from txn)
          (map_or_new (BTreeMap.get from txns)))
        txns

  -- The `for` loop.
  unfoldable pub add_transactions : List TransactionV2 → TransactionMap T → TransactionMap T
  add_transactions [] txns = txns
  add_transactions (txn ∷ rest) txns = add_transactions rest (add_transaction txn txns)

version_or : Result (Option ℕ) (Unit {0}) → RpcResult ℕ
version_or (ok (some version)) = ok version
version_or (ok none) = err version_failed
version_or (err e) = err version_failed

wrap_legacy : TxPoolResponseLegacy → TxPoolResponse
wrap_legacy res = record {
  ready = map TransactionV2.legacy res.ready;
  future = map TransactionV2.legacy res.future;
}

module _ {Extrinsic : Type 0} (pool : Pool Extrinsic) where
  -- The Ethereum transactions among the pool's extrinsics, by the runtime.
  unfoldable pub ethereum_txns : RpcResult TxPoolResponse
  unfolding version_or wrap_legacy
  ethereum_txns =
      let txs_ready = pool.ready in
      let txs_future = map (λ e. e.1) pool.futures in
      version_or pool.api_version >>= λ api_version.
      (if api_version == 1
        then (map_err (λ _. filter_failed)
              (pool.extrinsic_filter_before_version_2 txs_ready txs_future)
            >>= λ res. ok (wrap_legacy res))
        else map_err (λ _. filter_failed) (pool.extrinsic_filter txs_ready txs_future))

  unfoldable pub map_build :
      {T : Type 0} → ⦃view : GetT T⦄ → Crypto → RpcResult (TxPoolResult (TransactionMap T))
  map_build crypto = ethereum_txns >>= λ txns. ok (record {
    pending = add_transactions crypto txns.ready [];
    queued = add_transactions crypto txns.future [];
  })

  unfoldable pub content : Crypto → RpcResult (TxPoolResult (TransactionMap Transaction))
  content crypto = map_build crypto

  unfoldable pub inspect : Crypto → RpcResult (TxPoolResult (TransactionMap Summary))
  inspect crypto = map_build crypto

  unfoldable pub status : RpcResult (TxPoolResult U256)
  status = ok (record { pending = pool.ready_count; queued = pool.future_count })
