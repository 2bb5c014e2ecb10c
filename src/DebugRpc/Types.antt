-- ===== src/DebugRpc/Types.antt =====
-- client/rpc/debug/src/lib.rs, client/rpc-core/debug/src/lib.rs, primitives/rpc/debug/src/lib.rs and
-- client/evm-tracing/src/types/single.rs: the parameters, the answers and the errors of a trace.
use edgeware_node.Prelude.{ℕ, List, Option, Bool}
use edgeware_node.Prelude.Text.{Bytes}
use edgeware_node.Prelude.Results.{Result}
use edgeware_node.Prelude.Results
use edgeware_node.Tracing.Types.{H256, U256, BlockscoutCall}
use edgeware_node.Tracing.Raw.State.{RawStepLog}
use edgeware_node.Tracing.CallTracer.{CallTracerCall}
use edgeware_node.TraceRpc.Filter.{RequestBlockId}

pub record TraceParams : Type 0 where
  pub disable_storage : Option Bool
  pub disable_memory : Option Bool
  pub disable_stack : Option Bool
  pub tracer : Option Bytes
  pub timeout : Option Bytes

pub data TracerInput : Type 0 where
  none blockscout call_tracer : TracerInput

pub data TraceType : Type 0 where
  -- disable_storage, disable_memory, disable_stack
  raw : Bool → Bool → Bool → TraceType
  call_list block : TraceType

pub data Call : Type 0 where
  blockscout : BlockscoutCall → Call
  call_tracer : CallTracerCall → Call

pub data TransactionTrace : Type 0 where
  -- gas, return_value, step_logs; the last step first
  raw : U256 → Bytes → List RawStepLog → TransactionTrace
  call_list : List Call → TransactionTrace
  call_list_nested : Call → TransactionTrace

pub data RequesterInput : Type 0 where
  transaction : H256 → RequesterInput
  block : RequestBlockId → RequesterInput

pub data Response : Type 0 where
  single : TransactionTrace → Response
  block : List TransactionTrace → Response

pub data BlockId : Type 0 where
  number : ℕ → BlockId
  hash : H256 → BlockId

-- The errors, by the `internal_err` that makes them.
pub data Error : Type 0 where
  -- "javascript based tracing is not available (hash :{:?})"
  javascript_unavailable : ℕ → Error
  -- "'pending' blocks are not supported"
  pending_not_supported : Error
  -- "Block hash not found"
  block_hash_not_found : Error
  -- "Block header not found"
  block_header_not_found : Error
  -- "No storage override at {:?}"
  no_storage_override : BlockId → Error
  -- "Fail to read blockchain db: {:?}"
  read_failed : Error
  -- "Runtime api access error: {:?}"
  runtime_access_failed : Error
  -- "Blockchain error when replaying block {} : {:?}"
  blockchain_replay_failed : BlockId → Error
  -- "Internal runtime error when replaying block {} : {:?}"
  runtime_replay_failed : BlockId → Error
  -- "Trace result is empty."
  trace_empty : Error
  -- "Bug: failed to resolve the tracer format."
  unresolved_tracer : Error
  -- "debug_traceBlock functions currently only support callList mode ..."
  block_mode_unsupported : Error
  -- "Transaction hash not found"
  transaction_not_found : Error
  -- "Runtime api version call failed (trace)"
  version_call_failed : Error
  -- "Runtime api access error (version {:?}): {:?}"
  transaction_access_failed : ℕ → Error
  -- "Runtime api access error (legacy): {:?}"
  legacy_access_failed : Error
  -- "DispatchError: {:?}"
  dispatch_error : Error
  -- "Bug: pre-london runtime expects legacy transactions"
  legacy_expected : Error
  -- "Fail to format proxy"
  format_failed : Error
  -- "Bug: `handle_transaction_request` does not support {:?}."
  mode_unsupported : TraceType → Error
  -- "Runtime block call failed"
  runtime_call_failed : Error
  -- "Internal error on spawned task : {:?}"
  spawned_task_failed : Error
  -- "failed to send request to debug service : {:?}"
  send_failed : Error
  -- "debug service dropped the channel : {:?}"
  channel_dropped : Error
  -- an error of the Frontier backend, passed on
  backend : ℕ → Error

abbrev pub RpcResult : Type 0 → Type 0
RpcResult A = Result A Error

-- How a call ends: with a value, an error, or a panic.
pub data Run (A : Type 0) : Type 0 where
  ok : A → Run A
  err : Error → Run A
  panic : Run A

infixl 5 ◌>>=◌
abbrev pub ◌>>=◌ : {A B : Type 0} → Run A → (A → Run B) → Run B
ok a >>= f = f a
err e >>= f = err e
panic >>= f = panic

abbrev pub lift : {A : Type 0} → RpcResult A → Run A
lift (Results.ok a) = ok a
lift (Results.err e) = err e

-- `expect`, `unwrap` and their like.
abbrev pub or_panic : {A : Type 0} → Option A → Run A
or_panic Option.none = panic
or_panic (Option.some a) = ok a
