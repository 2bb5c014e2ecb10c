-- ===== src/Tests/Pool.antt =====
-- A pool with two transactions of one sender and one nonce, one of another nonce, and an extrinsic
-- of another kind.
use edgeware_node.Prelude.{ℕ, ◌≡◌, refl, [], ◌∷◌, map, none, some}
use edgeware_node.Prelude.Text.{bytes}
use edgeware_node.Prelude.Results.{ok}
use edgeware_node.Ethereum.{TransactionAction, TransactionV2}
use edgeware_node.Runtime.TraceApi.{Extrinsic}
use edgeware_node.Runtime.PoolApi.{TxPoolResponse, extrinsic_filter}
use edgeware_node.TxPool.{
  TransactionMap, TxPoolResult, Crypto, Pool, from_address, nonce_of, ethereum_txns, map_build,
  content, inspect,
}
use edgeware_node.TxPool.Lookup.{find, last_with, viewed, map_build-last}
use edgeware_node.TxPool.Agreement.{summaries, last_in, inspect-content, content-last_in}
use edgeware_node.TxPool.Views.{Transaction, Summary, transaction_view, summary_view}

abbrev paying : ℕ → ℕ → TransactionV2
paying nonce fee = TransactionV2.eip1559 (record {
  nonce = nonce;
  max_priority_fee_per_gas = 1;
  max_fee_per_gas = fee;
  gas_limit = 21000;
  action = TransactionAction.call 20;
  value = 5;
  input = [];
  signature = bytes "ab";
})

abbrev crypto : Crypto
crypto = record { hash = λ t. 77; public_key = λ t. some (bytes "key"); address = λ key. 30 }

abbrev pool : Pool (Extrinsic ℕ)
pool = record {
  ready =
      Extrinsic.ethereum (paying 0 10)
      ∷ Extrinsic.other 4
      ∷ Extrinsic.ethereum (paying 1 11)
      ∷ Extrinsic.ethereum (paying 0 12)
      ∷ [];
  futures = (5, Extrinsic.ethereum (paying 7 13)) ∷ [];
  ready_count = 4;
  future_count = 1;
  api_version = ok (some 2);
  extrinsic_filter_before_version_2 = λ ready future. ok (record { ready = []; future = [] });
  extrinsic_filter = λ ready future. ok (extrinsic_filter ready future);
}

abbrev answer : TxPoolResponse
answer = record { ready = paying 0 10 ∷ paying 1 11 ∷ paying 0 12 ∷ []; future = paying 7 13 ∷ [] }

answered : ethereum_txns pool ≡ ok answer
unfolding ethereum_txns extrinsic_filter
answered = refl

map_build-last_example :
    (result : TxPoolResult (TransactionMap Transaction)) × (map_build pool crypto ≡ ok result)
    × (find 30 0 result.pending ≡ viewed crypto 30 0 (last_with crypto 30 0 none answer.ready))
    × (find 30 0 result.queued ≡ viewed crypto 30 0 (last_with crypto 30 0 none answer.future))
map_build-last_example = map_build-last crypto 30 0 pool answer answered

inspect-content_example :
    (c : TxPoolResult (TransactionMap Transaction)) × (i : TxPoolResult (TransactionMap Summary))
    × (content pool crypto ≡ ok c)
    × (inspect pool crypto ≡ ok i)
    × (find 30 0 i.pending ≡ summaries (find 30 0 c.pending))
    × (find 30 0 i.queued ≡ summaries (find 30 0 c.queued))
inspect-content_example = inspect-content pool crypto 30 0 answer answered

content-last_in_example :
    (c : TxPoolResult (TransactionMap Transaction)) × (content pool crypto ≡ ok c)
    × (find 30 0 c.pending ≡ viewed crypto 30 0 (last_in crypto 30 0 none pool.ready))
    × (find 30 0 c.queued
        ≡ viewed crypto 30 0 (last_in crypto 30 0 none (map (λ e. e.1) pool.futures)))
content-last_in_example = content-last_in crypto 30 0 pool 2 refl refl refl

-- The transaction with the greater fee, sent last, has taken the other's place.
found_last : last_with crypto 30 0 none answer.ready ≡ some (paying 0 12)
unfolding from_address nonce_of
found_last = refl
