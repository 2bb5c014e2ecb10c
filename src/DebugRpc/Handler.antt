-- ===== src/DebugRpc/Handler.antt =====
-- client/rpc/debug/src/lib.rs: the handlers of the RPC, and the task that answers them. A request
-- may wait for a permit; it is then answered on its own, so that the order of the requests does not
-- matter. A panic of the blocking task is an error for its requester.
pub mod Kinds
pub mod Forms
pub mod Replies
use edgeware_node.Prelude.{Option, List}
use edgeware_node.Prelude.Text.{Bytes}
use edgeware_node.Prelude.{ℕ}
use edgeware_node.Prelude.Results
use edgeware_node.Tracing.Types.{H256}
use edgeware_node.TraceRpc.Filter.{RequestBlockId}
use edgeware_node.DebugRpc.Inputs.{Client}
use edgeware_node.DebugRpc.{handle_block_request, handle_transaction_request}
use edgeware_node.DebugRpc.Types
use edgeware_node.DebugRpc.Types.{
  TraceParams, RequesterInput, Response, TransactionTrace, RpcResult, Run, ◌>>=◌, lift,
}

-- What comes back on the channels.
pub data Delivery : Type 0 where
  send_failed dropped : Delivery
  answered : RpcResult Response → Delivery

abbrev pub Requester : Type 0
Requester = RequesterInput → Option TraceParams → Delivery

unfoldable pub received : Delivery → RpcResult Response
received send_failed = Results.err Types.send_failed
received dropped = Results.err Types.channel_dropped
received (answered r) = r

unfoldable pub single_or_unreachable : Response → Run TransactionTrace
single_or_unreachable (Response.single trace) = Run.ok trace
single_or_unreachable (Response.block traces) = Run.panic

unfoldable pub block_or_unreachable : Response → Run (List TransactionTrace)
block_or_unreachable (Response.block traces) = Run.ok traces
block_or_unreachable (Response.single trace) = Run.panic

unfoldable pub trace_transaction : Requester → H256 → Option TraceParams → Run TransactionTrace
unfolding received single_or_unreachable
trace_transaction requester transaction_hash params =
    lift (received (requester (RequesterInput.transaction transaction_hash) params))
    >>= single_or_unreachable

unfoldable pub trace_block :
    Requester → RequestBlockId → Option TraceParams → Run (List TransactionTrace)
unfolding received block_or_unreachable
trace_block requester id params =
    lift (received (requester (RequesterInput.block id) params)) >>= block_or_unreachable

-- `spawn_blocking(..).await.map_err(..)?`
unfoldable pub joined : {A : Type 0} → Run A → RpcResult A
joined (Run.ok r) = Results.ok r
joined (Run.err e) = Results.err e
joined Run.panic = Results.err Types.spawned_task_failed

unfoldable pub task :
    {Extrinsic : Type 0}
    → Client Extrinsic
    → (Bytes → ℕ)
    → RequesterInput
    → Option TraceParams
    → RpcResult Response
task client twox_128 (RequesterInput.transaction h) params =
    joined (handle_transaction_request client twox_128 h params)
task client twox_128 (RequesterInput.block id) params =
    joined (handle_block_request client twox_128 id params)
