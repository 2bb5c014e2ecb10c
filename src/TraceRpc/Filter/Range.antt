-- ===== src/TraceRpc/Filter/Range.antt =====
-- The whole of `filter`, from the block range to the traces.
use edgeware_node.Prelude.{
  ℕ, zero, suc, ◌-◌, ◌≤◌, ◌≡◌, refl, inl, inr, List, map, some, false, not, arith, ltb, ◌==◌, keep,
  Bool-cases,
}
use edgeware_node.Prelude.Results.{ok}
use edgeware_node.Tracing.Types.{H256, TransactionTrace}
use edgeware_node.TraceRpc.Filter.{
  FilterRequest, RequestBlockId, Requester, Client, unwrap_or, block_id, heights, heights_from,
  block_hashes, prepare, fetch_traces, filter,
}
use edgeware_node.TraceRpc.Filter.Window.{AllReady, wanted, window, fetch_traces-window}

-- The heights of the range but the genesis block's.
abbrev pub traced_heights : ℕ → ℕ → List ℕ
traced_heights from to = keep (λ h. not (h == 0)) (heights from to)

block_hashes_lem :
    (client : Client) (hash_of : ℕ → H256) (n from to : ℕ)
    → n ≤ suc to - from
    → ((h : ℕ) → from ≤ h → h ≤ to → client.header h ≡ ok (some (hash_of h)))
    → block_hashes client (heights_from n from)
      ≡ ok (map hash_of (keep (λ h. not (h == 0)) (heights_from n from)))
unfolding block_hashes heights_from
block_hashes_lem client hash_of zero from to within found = refl
block_hashes_lem client hash_of (suc n) from to within found =
    let rest =
      block_hashes_lem client hash_of n (suc from) to (omega arith)
        (λ h low high. found h (omega arith) high) in
    elim (Bool-cases (from == 0)) [
      | inl genesis ↦ rw genesis rest
      | inr later ↦ rw later (rw (found from (omega arith) (omega arith)) (rw rest))
    ]

module _ {S : Type 0} (requester : Requester S) (client : Client) (max_count : ℕ) where
  -- If the client has the headers of all heights from `from` to `to`, the count is not above the
  -- maximum, and the batch that is started finds its blocks ready, as in `fetch_traces-window`, then
  -- a request for this range returns the window of the wanted traces of the blocks of the range, in
  -- the order of the heights and without the genesis block, and the batch is stopped.
  pub filter-window :
      (req : FilterRequest) (traces_of : H256 → List TransactionTrace) (Ready : H256 → S → Type 0)
      → ((h : H256) (s : S) → Ready h s → (requester.get_traces h s).0 ≡ ok (traces_of h))
      → ((g h : H256) (s : S) → Ready h s → Ready g s → Ready g ((requester.get_traces h s).1))
      → (hash_of : ℕ → H256) (from to batch_id : ℕ) (s s' : S)
      → ((h : ℕ) → from ≤ h → h ≤ to → client.header h ≡ ok (some (hash_of h)))
      → req.from_block ≡ some (RequestBlockId.number from)
      → req.to_block ≡ some (RequestBlockId.number to)
      → unwrap_or req.count max_count ≤ max_count
      → let hashes = map hash_of (traced_heights from to) in
        requester.start_batch hashes s ≡ (ok batch_id, s')
        → AllReady Ready hashes s'
        → let fetched =
            fetch_traces requester max_count req hashes (unwrap_or req.count max_count) s' in
          filter requester client max_count req s ≡ (
            window max_count req (wanted req traces_of hashes),
            requester.stop_batch batch_id (fetched.1),
          )
  unfolding filter prepare block_id heights
  filter-window req traces_of Ready answers keeps hash_of from to batch_id s s' found at_from at_to
        fits started all_ready =
      let hashes = map hash_of (traced_heights from to) in
      let limit = unwrap_or req.count max_count in
      let fetched = fetch_traces requester max_count req hashes limit s' in
      let ready : prepare client max_count req ≡ ok (hashes, limit) =
        rw (at_from, at_to, block_id, prepare)
          (let low : ltb max_count limit ≡ false = ground arith in
            rw
              (low, block_hashes_lem client hash_of (suc to - from) from to (omega arith) found)) in
      rw (ready, filter)
        (rw (started, filter)
          (λ i. (
            fetch_traces-window requester max_count req traces_of Ready answers keeps hashes s'
                all_ready i,
            requester.stop_batch batch_id (fetched.1),
          )))
