-- ===== src/TraceRpc/Filter.antt =====
-- client/rpc/trace/src/lib.rs, the RPC handler `Trace`, and the request of
-- client/rpc-core/trace/src/lib.rs with the block identifiers of client/rpc-core/types/src/lib.rs.
pub mod Window
pub mod Range
pub mod Batches
use edgeware_node.Prelude.{
  ℕ, zero, suc, ◌+◌, ◌-◌, List, [], ◌∷◌, ◌++◌, Option, none, some, Bool, true, false, ◌&&◌, ◌||◌,
  ltb, leb, ◌==◌, if◌then◌else◌, length, take, drop, keep,
}
use edgeware_node.Prelude.Results.{Result, ok, err, ◌>>=◌, ok_or, map_err}
use edgeware_node.Prelude.Int.{ℤ, pos, negsuc, sub_ℕ, add_ℕ}
use edgeware_node.Tracing.Types.{H160, H256, TransactionTrace, TransactionTraceAction}
use edgeware_node.TraceRpc.Errors.{
  Error, RpcResult, Traces, pending_not_supported, hash_not_supported, count_above_maximum,
  header_failed, no_such_height, over_maximum,
}

pub data RequestBlockTag : Type 0 where
  earliest latest pending : RequestBlockTag

pub data RequestBlockId : Type 0 where
  number : ℕ → RequestBlockId
  hash : H256 → RequestBlockId
  tag : RequestBlockTag → RequestBlockId

pub record FilterRequest : Type 0 where
  pub from_block : Option RequestBlockId
  pub to_block : Option RequestBlockId
  pub from_address : Option (List H160)
  pub to_address : Option (List H160)
  pub after : Option ℕ
  pub count : Option ℕ

-- What the handler asks of the client, a library: the best block's number, and the hash of the
-- header at a height, which may fail or find nothing.
pub record Client : Type 0 where
  pub best_number : ℕ
  pub header : ℕ → Result (Option H256) (Unit {0})

-- What the handler asks of the cache task, over the state `S` of the world.
pub record Requester (S : Type 0) : Type 0 where
  pub start_batch : List H256 → S → RpcResult ℕ × S
  pub get_traces : H256 → S → Traces × S
  pub stop_batch : ℕ → S → S

abbrev pub unwrap_or {ℓ} : {A : Type ℓ} → Option A → A → A
unwrap_or none a = a
unwrap_or (some b) a = b

unfoldable pub block_id : Client → Option RequestBlockId → RpcResult ℕ
block_id client (some (RequestBlockId.number n)) = ok n
block_id client none = ok client.best_number
block_id client (some (RequestBlockId.tag RequestBlockTag.latest)) = ok client.best_number
block_id client (some (RequestBlockId.tag RequestBlockTag.earliest)) = ok 0
block_id client (some (RequestBlockId.tag RequestBlockTag.pending)) = err pending_not_supported
block_id client (some (RequestBlockId.hash h)) = err hash_not_supported

contains : List H160 → H160 → Bool
contains [] a = false
contains (x ∷ xs) a = x == a || contains xs a

is_empty : List H160 → Bool
is_empty [] = true
is_empty (x ∷ xs) = false

-- The closure of `filter` in `fetch_traces`.
matches_action : List H160 → List H160 → TransactionTraceAction → Bool
matches_action froms tos (TransactionTraceAction.call t from gas input to value) =
    (is_empty froms || contains froms from) && (is_empty tos || contains tos to)
matches_action froms tos (TransactionTraceAction.create m from gas init value) =
    (is_empty froms || contains froms from) && is_empty tos
matches_action froms tos (TransactionTraceAction.suicide address balance refund_address) =
    (is_empty froms || contains froms address) && is_empty tos

unfoldable pub is_wanted : FilterRequest → TransactionTrace → Bool
unfolding matches_action contains is_empty
is_wanted req trace =
    matches_action (unwrap_or req.from_address []) (unwrap_or req.to_address []) trace.action

-- How a round of the loop of `fetch_traces` ends.
pub data Round : Type 0 where
  done : Traces → Round
  next : List TransactionTrace → Round

full_round : ℕ → ℕ → Option ℕ → List TransactionTrace → Round
full_round max_count limit none traces = done (err (over_maximum max_count))
full_round max_count limit (some c) traces = done (ok (take limit traces))

-- `amount` is `traces_amount` with the block's traces added; `limit` is the parameter `count`.
unfoldable pub add_round :
    ℕ → FilterRequest → ℕ → ℤ → List TransactionTrace → List TransactionTrace → Round
unfolding full_round
add_round max_count req limit (negsuc n) block_traces traces = next traces
add_round max_count req limit (pos zero) block_traces traces = next traces
add_round max_count req limit (pos (suc n)) block_traces traces =
    let amount = suc n in
    let size = length block_traces in
    let skipped = if ltb amount size then drop (size - amount) block_traces else block_traces in
    if leb limit amount
    then full_round max_count limit req.count (traces ++ skipped)
    else next (traces ++ skipped)

module _ {S : Type 0} (max_count : ℕ) (req : FilterRequest) (limit : ℕ) where
  -- The rest of the loop is `again`.
  on_round : (ℤ → List TransactionTrace → S → Traces × S) → ℤ → S → Round → Traces × S
  on_round again amount s (done result) = (result, s)
  on_round again amount s (next traces) = again amount traces s

  unfoldable pub on_answer :
      (ℤ → List TransactionTrace → S → Traces × S)
      → ℤ
      → List TransactionTrace
      → Traces × S
      → Traces × S
  unfolding on_round
  on_answer again amount traces (err e, s) = (err e, s)
  on_answer again amount traces (ok found, s) =
      let block_traces = keep (is_wanted req) found in
      let amount' = add_ℕ amount (length block_traces) in
      on_round again amount' s (add_round max_count req limit amount' block_traces traces)

module _ {S : Type 0} (requester : Requester S) (max_count : ℕ) where
  -- The loop of `fetch_traces`.
  unfoldable pub fetch_blocks :
      FilterRequest → ℕ → List H256 → ℤ → List TransactionTrace → S → Traces × S
  unfolding on_answer
  fetch_blocks req limit [] amount traces s = (ok traces, s)
  fetch_blocks req limit (block_hash ∷ rest) amount traces s =
      on_answer max_count req limit (fetch_blocks req limit rest) amount traces
        (requester.get_traces block_hash s)

  unfoldable pub fetch_traces : FilterRequest → List H256 → ℕ → S → Traces × S
  unfolding fetch_blocks
  fetch_traces req block_hashes limit s =
      fetch_blocks req limit block_hashes (sub_ℕ 0 (unwrap_or req.after 0)) [] s

-- The heights `from ..= to`, from the number of them.
heights_from : ℕ → ℕ → List ℕ
heights_from zero h = []
heights_from (suc n) h = h ∷ heights_from n (suc h)

unfoldable pub heights : ℕ → ℕ → List ℕ
unfolding heights_from
heights from to = heights_from (suc to - from) from

-- The loop that looks up the block hashes.
unfoldable pub block_hashes : Client → List ℕ → RpcResult (List H256)
block_hashes client [] = ok []
block_hashes client (h ∷ hs) =
    if h == 0
    then block_hashes client hs
    else (map_err (λ _. header_failed h) (client.header h) >>= λ found.
        ok_or found (no_such_height h) >>= λ block_hash.
        block_hashes client hs >>= λ rest. ok (block_hash ∷ rest))

-- The checks of `filter`, up to the start of the batch: the hashes and the count.
unfoldable pub prepare : Client → ℕ → FilterRequest → RpcResult (List H256 × ℕ)
prepare client max_count req = block_id client req.from_block >>= λ from_block.
    block_id client req.to_block >>= λ to_block.
    (let limit = unwrap_or req.count max_count in
      if ltb max_count limit
      then err (count_above_maximum limit max_count)
      else (block_hashes client (heights from_block to_block) >>= λ hashes. ok (hashes, limit)))

module _ {S : Type 0} (requester : Requester S) (client : Client) (max_count : ℕ) where
  -- The batch is stopped whether the traces were fetched or not.
  run_batch : FilterRequest → List H256 → ℕ → RpcResult ℕ × S → Traces × S
  run_batch req hashes limit (err e, s) = (err e, s)
  run_batch req hashes limit (ok batch_id, s) =
      let res = fetch_traces requester max_count req hashes limit s in
      (res.0, requester.stop_batch batch_id (res.1))

  unfoldable pub filter : FilterRequest → S → Traces × S
  unfolding run_batch
  filter req s = elim (prepare client max_count req) [
    | err e ↦ (err e, s)
    | ok (hashes, limit) ↦ run_batch req hashes limit (requester.start_batch hashes s)
  ]
