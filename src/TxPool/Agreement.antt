-- ===== src/TxPool/Agreement.antt =====
-- The two views agree, and with the runtime's filter they show the pool's Ethereum extrinsics.
use edgeware_node.Prelude.{
  ℕ, ◌≡◌, refl, sym, ap, ◌∙◌, List, [], ◌∷◌, map, Option, none, some, ◌==◌, if◌then◌else◌, false,
}
use edgeware_node.Prelude.Results.{ok}
use edgeware_node.Tracing.Types.{H160, H256, U256}
use edgeware_node.Ethereum.{TransactionV2}
use edgeware_node.Runtime.TraceApi.{Extrinsic}
use edgeware_node.Runtime.PoolApi.{TxPoolResponse, ethereum_only, extrinsic_filter}
use edgeware_node.TxPool.{
  TransactionMap, TxPoolResult, Crypto, Pool, ethereum_txns, content, inspect,
}
use edgeware_node.TxPool.Lookup.{find, last_with, has_key, viewed, map_build-last}
use edgeware_node.TxPool.Views.{
  Transaction, Summary, transaction_view, summary_view, get_transaction, get_summary,
}

-- A transaction's summary.
abbrev pub summary : Transaction → Summary
summary t = record { to = t.to; value = t.value; gas = t.gas; gas_price = t.gas_price }

abbrev pub summaries : Option Transaction → Option Summary
summaries none = none
summaries (some t) = some (summary t)

get_summary_lem :
    (hash : H256) (from : H160) (txn : TransactionV2)
    → get_summary hash from txn ≡ summary (get_transaction hash from txn)
unfolding get_summary get_transaction
get_summary_lem hash from (TransactionV2.legacy t) = refl
get_summary_lem hash from (TransactionV2.eip2930 t) = refl
get_summary_lem hash from (TransactionV2.eip1559 t) = refl

viewed-summaries :
    (crypto : Crypto) (from : H160) (nonce : U256) (found : Option TransactionV2)
    → viewed {T = Summary} crypto from nonce found
      ≡ summaries (viewed {T = Transaction} crypto from nonce found)
unfolding transaction_view summary_view
viewed-summaries crypto from nonce none = refl
viewed-summaries crypto from nonce (some txn) = ap some (get_summary_lem (crypto.hash txn) from txn)

-- If the runtime answers, `content` and `inspect` answer, and under every sender and nonce
-- `inspect` has the summary of what `content` has, pending and queued: the same recipient, value,
-- gas and gas price.
pub inspect-content :
    {E : Type 0} (pool : Pool E) (crypto : Crypto) (from : H160) (nonce : U256)
    (txns : TxPoolResponse)
    → ethereum_txns pool ≡ ok txns
    → (c : TxPoolResult (TransactionMap Transaction)) × (i : TxPoolResult (TransactionMap Summary))
      × (content pool crypto ≡ ok c)
      × (inspect pool crypto ≡ ok i)
      × (find from nonce i.pending ≡ summaries (find from nonce c.pending))
      × (find from nonce i.queued ≡ summaries (find from nonce c.queued))
unfolding content inspect
inspect-content pool crypto from nonce txns answered =
    let (c, at_c, pending, queued) =
      map_build-last {T = Transaction} crypto from nonce pool txns answered in
    let (i, at_i, pending_i, queued_i) =
      map_build-last {T = Summary} crypto from nonce pool txns answered in
    let same = viewed-summaries crypto from nonce in
    (
      c,
      i,
      at_c,
      at_i,
      pending_i ∙ (same (last_with crypto from nonce none txns.ready) ∙ ap summaries (sym pending)),
      queued_i ∙ (same (last_with crypto from nonce none txns.future) ∙ ap summaries (sym queued)),
    )

-- The last Ethereum extrinsic with the sender and the nonce.
module _ {Other : Type 0} (crypto : Crypto) (from : H160) (nonce : U256) where
  abbrev pub last_in : Option TransactionV2 → List (Extrinsic Other) → Option TransactionV2
  last_in found [] = found
  last_in found (Extrinsic.ethereum txn ∷ xts) =
      last_in (if has_key crypto from nonce txn then some txn else found) xts
  last_in found (Extrinsic.other call ∷ xts) = last_in found xts

  last_with-ethereum_only :
      (found : Option TransactionV2) (xts : List (Extrinsic Other))
      → last_with crypto from nonce found (ethereum_only xts) ≡ last_in found xts
  unfolding ethereum_only
  last_with-ethereum_only found [] = refl
  last_with-ethereum_only found (Extrinsic.ethereum txn ∷ xts) =
      last_with-ethereum_only (if has_key crypto from nonce txn then some txn else found) xts
  last_with-ethereum_only found (Extrinsic.other call ∷ xts) = last_with-ethereum_only found xts

  -- With the runtime's own filter behind a version of the API other than 1, `content` answers, and
  -- shows under a sender and a nonce the last Ethereum extrinsic with them of the ready queue as
  -- pending, and of the future queue as queued; other extrinsics are left out.
  pub content-last_in :
      (pool : Pool (Extrinsic Other)) (version : ℕ)
      → pool.api_version ≡ ok (some version)
      → (version == 1) ≡ false
      → pool.extrinsic_filter pool.ready (map (λ e. e.1) pool.futures)
        ≡ ok (extrinsic_filter pool.ready (map (λ e. e.1) pool.futures))
      → (c : TxPoolResult (TransactionMap Transaction)) × (content pool crypto ≡ ok c)
        × (find from nonce c.pending ≡ viewed crypto from nonce (last_in none pool.ready))
        × (find from nonce c.queued
            ≡ viewed crypto from nonce (last_in none (map (λ e. e.1) pool.futures)))
  unfolding content ethereum_txns transaction_view extrinsic_filter
  content-last_in pool version at_version later filtered =
      let answered : ethereum_txns pool
          ≡ ok (extrinsic_filter pool.ready (map (λ e. e.1) pool.futures)) =
        rw (at_version, later, filtered, ethereum_txns) in
      let (c, at, pending, queued) =
        map_build-last {T = Transaction} crypto from nonce pool _ answered in
      (
        c,
        at,
        pending ∙ ap (viewed crypto from nonce) (last_with-ethereum_only none pool.ready),
        queued
            ∙ ap (viewed crypto from nonce)
                (last_with-ethereum_only none (map (λ e. e.1) pool.futures)),
      )
