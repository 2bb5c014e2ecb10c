-- ===== src/Runtime/PoolApi.antt =====
-- node/runtime/src/lib.rs, `TxPoolRuntimeApi`: the Ethereum transactions among the pool's
-- extrinsics. primitives/rpc/txpool/src/lib.rs: the answer.
use edgeware_node.Prelude.{List, [], ◌∷◌}
use edgeware_node.Ethereum.{TransactionV2}
use edgeware_node.Runtime.TraceApi.{Extrinsic}

pub record TxPoolResponse : Type 0 where
  pub ready : List TransactionV2
  pub future : List TransactionV2

-- The `filter_map`.
unfoldable pub ethereum_only : {Other : Type 0} → List (Extrinsic Other) → List TransactionV2
ethereum_only [] = []
ethereum_only (Extrinsic.ethereum transaction ∷ xts) = transaction ∷ ethereum_only xts
ethereum_only (Extrinsic.other call ∷ xts) = ethereum_only xts

unfoldable pub extrinsic_filter :
    {Other : Type 0} → List (Extrinsic Other) → List (Extrinsic Other) → TxPoolResponse
unfolding ethereum_only
extrinsic_filter xts_ready xts_future = record {
  ready = ethereum_only xts_ready;
  future = ethereum_only xts_future;
}
