-- ===== src/TraceRpc/Errors.antt =====
-- The errors of client/rpc/trace/src/lib.rs, by the `internal_err` that makes them.
use edgeware_node.Prelude.{ℕ, List}
use edgeware_node.Prelude.Results.{Result}
use edgeware_node.Tracing.Types.{H256, TransactionTrace}

pub data Error : Type 0 where
  -- "'pending' is not supported"
  pending_not_supported : Error
  -- "Block hash not supported"
  hash_not_supported : Error
  -- "count ({}) can't be greater than maximum ({})"
  count_above_maximum : ℕ → ℕ → Error
  -- "Error when fetching block {} header : {:?}"
  header_failed : ℕ → Error
  -- "Block with height {} don't exist"
  no_such_height : ℕ → Error
  -- "the amount of traces goes over the maximum ({}), ..."
  over_maximum : ℕ → Error
  -- "Failed to send request to the trace cache task."
  send_failed : Error
  -- "Trace cache task closed the response channel."
  channel_closed : Error
  -- "Failed to replay block. Error : {:?}"
  replay_failed : Error → Error
  -- "RPC request asked a block ({}) that was not batched"
  not_batched : H256 → Error
  -- "Tracing Substrate block {} panicked : {:?}"
  tracing_panicked : H256 → Error
  -- the errors of `cache_block`, in the order of the code
  substrate_header_failed : H256 → Error
  no_substrate_block : H256 → Error
  no_ethereum_block : H256 → Error
  no_storage_override : H256 → Error
  extrinsics_failed : ℕ → Error
  no_extrinsics : ℕ → Error
  runtime_access_failed : Error
  blockchain_replay_failed : ℕ → Error
  runtime_replay_failed : ℕ → Error
  format_failed : Error
  unexpected_transaction : ℕ → Error

abbrev pub RpcResult : Type 0 → Type 0
RpcResult A = Result A Error

abbrev pub Traces : Type 0
Traces = RpcResult (List TransactionTrace)
