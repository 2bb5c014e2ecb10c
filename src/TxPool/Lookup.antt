-- ===== src/TxPool/Lookup.antt =====
-- What is found under a sender and a nonce: the last transaction of the pool that has them.
use edgeware_node.Prelude.{
  ◌≡◌, refl, ap, inl, inr, List, [], ◌∷◌, Option, none, some, arith, ◌==◌, ◌&&◌, if◌then◌else◌,
  Bool, Bool-cases,
}
use edgeware_node.Prelude.Results.{ok}
use edgeware_node.BTreeMap
use edgeware_node.BTreeMap.{BTreeMap, get-insert}
use edgeware_node.Tracing.Types.{H160, U256}
use edgeware_node.Ethereum.{TransactionV2}
use edgeware_node.Runtime.PoolApi.{TxPoolResponse}
use edgeware_node.TxPool.{
  TransactionMap, TxPoolResult, Crypto, Pool, nonce_of, from_address, map_or_new, add_transaction,
  add_transactions, ethereum_txns, map_build,
}
use edgeware_node.TxPool.Views.{GetT, transaction_view, summary_view}

-- The entry of a sender and a nonce.
abbrev pub find : {T : Type 0} → H160 → U256 → TransactionMap T → Option T
find from nonce txns = BTreeMap.get nonce (map_or_new (BTreeMap.get from txns))

module _ (crypto : Crypto) (from : H160) (nonce : U256) where
  abbrev pub has_key : TransactionV2 → Bool
  has_key txn = from_address crypto txn == from && nonce_of txn == nonce

  -- The last one that has the sender and the nonce.
  abbrev pub last_with : Option TransactionV2 → List TransactionV2 → Option TransactionV2
  last_with found [] = found
  last_with found (txn ∷ rest) = last_with (if has_key txn then some txn else found) rest

module _ {T : Type 0} ⦃view : GetT T⦄ (crypto : Crypto) (from : H160) (nonce : U256) where
  -- What the view says of it.
  abbrev pub viewed : Option TransactionV2 → Option T
  viewed none = none
  viewed (some txn) = some (view.get (crypto.hash txn) from txn)

  find-add_transaction :
      (txn : TransactionV2) (txns : TransactionMap T) (found : Option TransactionV2)
      → find from nonce txns ≡ viewed found
      → find from nonce (add_transaction crypto txn txns)
        ≡ viewed (if has_key crypto from nonce txn then some txn else found)
  unfolding add_transaction
  find-add_transaction txn txns found h =
      let a = from_address crypto txn in
      let n = nonce_of txn in
      let v = view.get (crypto.hash txn) a txn in
      let inner = BTreeMap.insert n v (map_or_new (BTreeMap.get a txns)) in
      elim (Bool-cases (a == from)) [
        | inr other ↦ rw (get-insert a from inner txns, other) h
        | inl same ↦
            let at : a ≡ from = ground arith in
            let seen : find a nonce txns ≡ viewed found = rw at h in
            rw
              (
                get-insert a from inner txns,
                same,
                get-insert n nonce v (map_or_new (BTreeMap.get a txns)),
              )
              (elim (Bool-cases (n == nonce)) [
                | inl hit ↦ rw hit (ap (λ x. some (view.get (crypto.hash txn) x txn)) at)
                | inr miss ↦ rw miss seen
              ])
      ]

  find-add_transactions :
      (txs : List TransactionV2) (txns : TransactionMap T) (found : Option TransactionV2)
      → find from nonce txns ≡ viewed found
      → find from nonce (add_transactions crypto txs txns)
        ≡ viewed (last_with crypto from nonce found txs)
  unfolding add_transactions
  find-add_transactions [] txns found h = h
  find-add_transactions (txn ∷ rest) txns found h =
      find-add_transactions rest (add_transaction crypto txn txns)
        (if has_key crypto from nonce txn then some txn else found)
        (find-add_transaction txn txns found h)

  find-nil : find {T = T} from nonce [] ≡ none
  unfolding BTreeMap.get
  find-nil = refl

  -- If the runtime answers, both maps answer: under a sender and a nonce the pending map has what
  -- the view says of the last ready transaction with that sender and nonce, and the queued map of
  -- the last future one; without such a transaction nothing.
  pub map_build-last :
      {Extrinsic : Type 0} (pool : Pool Extrinsic) (txns : TxPoolResponse)
      → ethereum_txns pool ≡ ok txns
      → (result : TxPoolResult (TransactionMap T)) × (map_build pool crypto ≡ ok result)
        × (find from nonce result.pending ≡ viewed (last_with crypto from nonce none txns.ready))
        × (find from nonce result.queued ≡ viewed (last_with crypto from nonce none txns.future))
  unfolding map_build
  map_build-last pool txns answered = (
    _,
    rw answered,
    find-add_transactions txns.ready [] none find-nil,
    find-add_transactions txns.future [] none find-nil,
  )
