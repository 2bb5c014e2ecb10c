-- ===== src/DebugRpc.antt =====
-- client/rpc/debug/src/lib.rs: tracing a block or a transaction again.
pub mod Types
pub mod Inputs
pub mod Params
pub mod Handler
pub mod Replay
use edgeware_node.Prelude.{
  ℕ, List, [], ◌∷◌, map, reverse, Option, none, some, Bool, leb, if◌then◌else◌, get_elem?,
}
use edgeware_node.Prelude.Text.{Bytes}
use edgeware_node.Prelude.Results
use edgeware_node.Prelude.Results.{Result, map_err}
use edgeware_node.Tracing.Types.{H256, BlockscoutCall}
use edgeware_node.Tracing.Events.{Event}
use edgeware_node.Tracing.CallList
use edgeware_node.Tracing.CallList.{default, finish_transaction}
use edgeware_node.Tracing.Formatters.{format_blockscout}
use edgeware_node.Tracing.CallTracer.{CallTracerCall, format_call_tracer}
use edgeware_node.Tracing.Raw
use edgeware_node.Tracing.Raw.State
use edgeware_node.TraceRpc.Filter.{RequestBlockId, RequestBlockTag}
use edgeware_node.TraceRpc.BlockTraces.{Header}
use edgeware_node.Ethereum.{LegacyTransaction, TransactionV2}
use edgeware_node.DebugRpc.Inputs.{Client, extrinsics_of, block_of, transaction_of}
use edgeware_node.DebugRpc.Params.{handle_params}
use edgeware_node.DebugRpc.Types
use edgeware_node.DebugRpc.Types.{
  TraceParams, TracerInput, TraceType, TransactionTrace, Response, BlockId, RpcResult, Run, ◌>>=◌,
  lift, or_panic,
}

-- The closure `f`: its result, and the events that it emits.
abbrev pub Traced : Type 0
Traced = RpcResult (Unit {0}) × List Event

outcome :
    Types.Error
    → Types.Error
    → Result (Result (Unit {0}) (Unit {0})) (Unit {0})
    → RpcResult (Unit {0})
outcome api_error runtime_error (Results.err e) = Results.err api_error
outcome api_error runtime_error (Results.ok (Results.err e)) = Results.err runtime_error
outcome api_error runtime_error (Results.ok (Results.ok done)) = Results.ok done

-- `initialize_block(..)?`, and then the replay.
after_start : Result (Unit {0}) (Unit {0}) → Traced → Traced
after_start (Results.err e) traced = (Results.err Types.runtime_access_failed, [])
after_start (Results.ok started) traced = traced

-- `Raw::format`.
unfoldable pub format_raw : Raw.State.Listener → Option TransactionTrace
format_raw l = some (TransactionTrace.raw l.final_gas l.return_value (reverse l.step_logs))

-- `using(f)` with a call list listener, and `finish_transaction`.
unfoldable pub call_list_listener : Traced → Run CallList.Listener
call_list_listener f =
    lift (f.0) >>= λ _. Run.ok (finish_transaction (CallList.events (f.1) default))

abbrev pub nested_trace : CallTracerCall → TransactionTrace
nested_trace c = TransactionTrace.call_list_nested (Types.Call.call_tracer c)

-- `CallTracer::format(proxy).ok_or("Trace result is empty.")`
unfoldable pub call_tracer_traces : CallList.Listener → Run (List CallTracerCall)
call_tracer_traces proxy =
    or_panic (format_call_tracer proxy) >>= λ traces. lift (Results.ok_or traces Types.trace_empty)

block_format : TracerInput → CallList.Listener → Run (List CallTracerCall)
block_format TracerInput.call_tracer proxy = call_tracer_traces proxy
block_format TracerInput.blockscout proxy = Run.err Types.unresolved_tracer
block_format TracerInput.none proxy = Run.err Types.unresolved_tracer

unfoldable pub block_answer : TraceType → TracerInput → Traced → Run Response
unfolding block_format
block_answer TraceType.call_list tracer_input f = call_list_listener f >>= λ proxy.
    block_format tracer_input proxy >>= λ response.
    Run.ok (Response.block (map nested_trace response))
block_answer (TraceType.raw s m k) tracer_input f = Run.err Types.block_mode_unsupported
block_answer TraceType.block tracer_input f = Run.err Types.block_mode_unsupported

-- `res.pop().expect("Trace result is empty.")`, of the last element.
last_of : List CallTracerCall → Option CallTracerCall
last_of [] = none
last_of (x ∷ []) = some x
last_of (x ∷ y ∷ xs) = last_of (y ∷ xs)

blockscout_trace : Option (List BlockscoutCall) → RpcResult TransactionTrace
blockscout_trace none = Results.err Types.trace_empty
blockscout_trace (some calls) =
    Results.ok (TransactionTrace.call_list (map Types.Call.blockscout calls))

unfoldable pub transaction_format : TracerInput → CallList.Listener → Run TransactionTrace
unfolding last_of blockscout_trace
transaction_format TracerInput.blockscout proxy = lift (blockscout_trace (format_blockscout proxy))
transaction_format TracerInput.call_tracer proxy =
    call_tracer_traces proxy >>= λ res. or_panic (last_of res) >>= λ x. Run.ok (nested_trace x)
transaction_format TracerInput.none proxy = Run.err Types.unresolved_tracer

unfoldable pub transaction_answer : TraceType → TracerInput → Traced → Run Response
transaction_answer (TraceType.raw disable_storage disable_memory disable_stack) tracer_input f =
    or_panic (Raw.events (f.1) (Raw.State.new disable_storage disable_memory disable_stack))
    >>= λ proxy. lift (f.0) >>= λ _.
        lift (Results.ok_or (format_raw proxy) Types.format_failed) >>= λ trace.
        Run.ok (Response.single trace)
transaction_answer TraceType.call_list tracer_input f = call_list_listener f >>= λ proxy.
    transaction_format tracer_input proxy >>= λ response. Run.ok (Response.single response)
transaction_answer TraceType.block tracer_input f = Run.err (Types.mode_unsupported TraceType.block)

module _ {Extrinsic : Type 0} (client : Client Extrinsic) where
  -- The closure `f` of `handle_block_request`.
  unfoldable pub block_replay : BlockId → Header → List Extrinsic → List H256 → Traced
  unfolding outcome after_start
  block_replay id header exts eth_tx_hashes =
      let replayed = client.trace_block header.parent_hash exts eth_tx_hashes in
      after_start (client.initialize_block header.parent_hash header) (
        outcome (Types.blockchain_replay_failed id) (Types.runtime_replay_failed id) (replayed.0),
        replayed.1,
      )

  -- From the hashes of the Ethereum transactions on.
  unfoldable pub block_with : TracerInput × TraceType → BlockId × Header × List H256 → Run Response
  block_with traced_as (id, header, []) = Run.ok (Response.block [])
  block_with traced_as (id, header, h ∷ hs) = lift (extrinsics_of client id) >>= λ exts.
      block_answer (traced_as.1) (traced_as.0) (block_replay id header exts (h ∷ hs))

  unfoldable pub handle_block_request :
      (Bytes → ℕ) → RequestBlockId → Option TraceParams → Run Response
  unfolding block_with
  handle_block_request twox_128 request_block_id params =
      lift (handle_params twox_128 params) >>= λ traced_as.
      lift (block_of client request_block_id) >>= block_with traced_as

  legacy_replay : H256 → List Extrinsic → TransactionV2 → Traced
  legacy_replay parent exts (TransactionV2.legacy tx) =
      let replayed = client.trace_transaction_before_version_4 parent exts tx in
      (outcome Types.legacy_access_failed Types.dispatch_error (replayed.0), replayed.1)
  legacy_replay parent exts (TransactionV2.eip2930 tx) = (Results.err Types.legacy_expected, [])
  legacy_replay parent exts (TransactionV2.eip1559 tx) = (Results.err Types.legacy_expected, [])

  -- The closure `f` of `handle_transaction_request`.
  unfoldable pub transaction_replay : ℕ → Header → List Extrinsic → TransactionV2 → Traced
  unfolding legacy_replay after_start outcome
  transaction_replay version header exts transaction =
      let replayed = client.trace_transaction header.parent_hash exts transaction in
      after_start (client.initialize_block header.parent_hash header) (
        if leb 4 version
        then (
          outcome (Types.transaction_access_failed version) Types.dispatch_error (replayed.0),
          replayed.1,
        )
        else legacy_replay header.parent_hash exts transaction)

  -- From the transaction on.
  unfoldable pub transaction_with :
      TracerInput × TraceType → ℕ × Header × List Extrinsic × TransactionV2 → Run Response
  transaction_with traced_as (version, header, exts, transaction) =
      transaction_answer (traced_as.1) (traced_as.0)
        (transaction_replay version header exts transaction)

  unfoldable pub handle_transaction_request : (Bytes → ℕ) → H256 → Option TraceParams → Run Response
  handle_transaction_request twox_128 transaction_hash params =
      lift (handle_params twox_128 params) >>= λ traced_as.
      lift (transaction_of client transaction_hash) >>= transaction_with traced_as
