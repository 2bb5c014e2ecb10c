-- ===== src/TraceRpc/BlockTraces.antt =====
-- client/rpc/trace/src/lib.rs, `CacheTask::cache_block`: tracing one block.
-- The client, the runtime API and the Frontier storage overrides are libraries: `Chain` holds what
-- they answer. The events that the runtime emits while it replays the block are the answer of
-- `trace_block` beside its result.
pub mod Replay
use edgeware_node.Prelude.{ℕ, List, [], ◌∷◌, Option, none, some, Bool, get_elem?, if◌then◌else◌}
use edgeware_node.Prelude.Text.{bytes, bytes_eq}
use edgeware_node.Prelude.Results.{Result, ok, err, ◌>>=◌, ok_or, map_err}
use edgeware_node.Tracing.Types.{H256, TransactionTrace, TransactionTraceOutput}
use edgeware_node.Tracing.Events.{Event}
use edgeware_node.Tracing.CallList.{Listener, default, events}
use edgeware_node.Tracing.Formatters.{format}
use edgeware_node.TraceRpc.Errors.{
  RpcResult, Traces, substrate_header_failed, no_substrate_block, no_ethereum_block,
  no_storage_override, extrinsics_failed, no_extrinsics, runtime_access_failed,
  blockchain_replay_failed, runtime_replay_failed, format_failed, unexpected_transaction,
}

pub record Header : Type 0 where
  pub number : ℕ
  pub parent_hash : H256

-- The answers of a schema: the hash of the Ethereum block, and the hashes of its transactions.
pub record EthereumBlock : Type 0 where
  pub current_block : Option H256
  pub current_transaction_statuses : Option (List H256)

pub record Chain (Extrinsic : Type 0) : Type 0 where
  pub header : H256 → Result (Option Header) (Unit {0})
  pub schema : H256 → Option EthereumBlock
  pub body : H256 → Result (Option (List Extrinsic)) (Unit {0})
  pub initialize_block : H256 → Header → Result (Unit {0}) (Unit {0})
  -- the result and the events, for the parent's hash, the extrinsics and the transactions' hashes
  pub trace_block :
      H256
      → List Extrinsic
      → List H256
      → Result (Result (Unit {0}) (Unit {0})) (Unit {0}) × List Event

eth_hashes : Option H256 → Option (List H256) → H256 → RpcResult (H256 × List H256)
eth_hashes (some block) (some transactions) substrate_hash = ok (block, transactions)
eth_hashes (some block) none substrate_hash = err (no_ethereum_block substrate_hash)
eth_hashes none statuses substrate_hash = err (no_ethereum_block substrate_hash)

ethereum_data : Option EthereumBlock → H256 → RpcResult (H256 × List H256)
unfolding eth_hashes
ethereum_data none substrate_hash = err (no_storage_override substrate_hash)
ethereum_data (some b) substrate_hash =
    eth_hashes b.current_block b.current_transaction_statuses substrate_hash

-- "execution reverted" becomes "Reverted".
unfoldable pub reword : TransactionTraceOutput → TransactionTraceOutput
reword (TransactionTraceOutput.result r) = TransactionTraceOutput.result r
reword (TransactionTraceOutput.error e) =
    if bytes_eq e (bytes "execution reverted")
    then TransactionTraceOutput.error (bytes "Reverted")
    else TransactionTraceOutput.error e

abbrev pub filled : H256 → ℕ → H256 → TransactionTrace → TransactionTrace
filled eth_block_hash height transaction_hash t = record t {
  block_hash = eth_block_hash;
  block_number = height;
  transaction_hash = transaction_hash;
  output = reword t.output;
}

-- The loop that fills in what the formatter cannot know.
unfoldable pub fill : H256 → ℕ → List H256 → List TransactionTrace → Traces
fill eth_block_hash height transactions [] = ok []
fill eth_block_hash height transactions (t ∷ ts) =
    ok_or (get_elem? transactions t.transaction_position) (unexpected_transaction height) >>= λ h.
    fill eth_block_hash height transactions ts >>= λ rest.
    ok (filled eth_block_hash height h t ∷ rest)

abbrev pub tracing_result :
    ℕ → Result (Result (Unit {0}) (Unit {0})) (Unit {0}) → RpcResult (Unit {0})
tracing_result height result = map_err (λ _. blockchain_replay_failed height) result >>= λ inner.
    map_err (λ _. runtime_replay_failed height) inner

-- `proxy.using(f)`, and the formatting of what the listener holds then.
replayed : H256 → ℕ → List H256 → RpcResult (Unit {0}) → Listener → Traces
replayed eth_block_hash height transactions outcome proxy = outcome >>= λ _.
    ok_or (format proxy) format_failed >>= λ traces. fill eth_block_hash height transactions traces

unfoldable pub cache_block : {Extrinsic : Type 0} → Chain Extrinsic → H256 → Traces
unfolding ethereum_data replayed
cache_block chain substrate_hash =
    map_err (λ _. substrate_header_failed substrate_hash) (chain.header substrate_hash) >>= λ found.
    ok_or found (no_substrate_block substrate_hash) >>= λ header.
    ethereum_data (chain.schema substrate_hash) substrate_hash >>= λ eth.
    map_err (λ _. extrinsics_failed header.number) (chain.body substrate_hash) >>= λ body.
    ok_or body (no_extrinsics header.number) >>= λ extrinsics.
    (map_err (λ _. runtime_access_failed) (chain.initialize_block header.parent_hash header)
      >>= λ _.
          (let traced = chain.trace_block header.parent_hash extrinsics (eth.1) in
            replayed (eth.0) header.number (eth.1) (tracing_result header.number (traced.0))
              (events (traced.1) default)))
