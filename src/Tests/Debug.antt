-- ===== src/Tests/Debug.antt =====
-- A client that replays the block of `Tests.Tracing`, and its first transaction alone.
use edgeware_node.Prelude.{ℕ, ◌≡◌, ◌≢◌, refl, inr, [], ◌∷◌, map, Option, none, some, true, arith}
use edgeware_node.Prelude.Text.{Bytes, bytes}
use edgeware_node.Prelude.Results
use edgeware_node.Tracing.CallList.Blocks.{block_events, transaction_entries, transaction_events}
use edgeware_node.Tracing.CallTracer.Levels.{nested_call}
use edgeware_node.Tracing.CallTracer.Trees.{block_calls, transaction_node}
use edgeware_node.TraceRpc.Filter.{RequestBlockId}
use edgeware_node.Ethereum.{TransactionAction, TransactionV2}
use edgeware_node.DebugRpc.Inputs.{Client, Stored, reference_of}
use edgeware_node.DebugRpc.Params.{handle_params, blockscout_js_code_hash}
use edgeware_node.DebugRpc.{nested_trace, handle_block_request, handle_transaction_request}
use edgeware_node.DebugRpc.Types
use edgeware_node.DebugRpc.Types.{
  TraceParams, TracerInput, TraceType, Response, TransactionTrace, BlockId, Run,
}
use edgeware_node.DebugRpc.Handler.{Requester, answered, trace_transaction, trace_block, task}
use edgeware_node.DebugRpc.Handler.Forms.{HasForm, transaction_request-HasForm}
use edgeware_node.DebugRpc.Handler.Replies.{trace-no_panic}
use edgeware_node.DebugRpc.Replay.{
  block_request-block_events, transaction_request-transaction_events,
}
use edgeware_node.Tests.Tracing.{calling, creating, two, header}

abbrev sent : TransactionV2
sent = TransactionV2.legacy (record {
  nonce = 1;
  gas_price = 1;
  gas_limit = 90000;
  action = TransactionAction.call 20;
  value = 5;
  input = bytes "transfer";
  signature = [];
})

abbrev stored : Stored
stored = record {
  current_block = some (sent ∷ []);
  current_transaction_statuses = some (61 ∷ 62 ∷ []);
}

-- Extrinsics are numbers here.
abbrev client : Client ℕ
client = record {
  best_number = 12;
  load_hash = λ h. Results.ok (some (BlockId.hash 801));
  load_transactions = λ h. Results.ok (some (900, 0));
  header = λ id. Results.ok (some header);
  schema = λ id. some stored;
  body = λ id. Results.ok (some (1 ∷ 2 ∷ []));
  api_version = λ h. Results.ok (some 4);
  initialize_block = λ h head. Results.ok tt;
  trace_block = λ h exts known. (Results.ok (Results.ok tt), block_events two);
  trace_transaction = λ h exts t. (Results.ok (Results.ok tt), transaction_events calling);
  trace_transaction_before_version_4 = λ h exts t. (Results.err tt, []);
}

-- A hash that knows one text.
abbrev twox_128 : Bytes → ℕ
twox_128 [] = blockscout_js_code_hash
twox_128 (x ∷ xs) = 7

abbrev with_tracer : Bytes → Option TraceParams
with_tracer tracer = some (record {
  disable_storage = none;
  disable_memory = some true;
  disable_stack = none;
  tracer = some tracer;
  timeout = none;
})

abbrev latest : RequestBlockId
latest = RequestBlockId.number 12

block_request-block_events_example :
    handle_block_request client twox_128 latest (with_tracer (bytes "callTracer"))
    ≡ Run.ok (Response.block (map nested_trace (block_calls 0 two)))
unfolding handle_params reference_of
block_request-block_events_example =
    block_request-block_events client twox_128 latest (with_tracer (bytes "callTracer"))
      (BlockId.number 12) header stored 61 (62 ∷ []) (1 ∷ 2 ∷ []) calling (creating ∷ []) refl refl
      refl refl refl refl refl refl (omega arith)

transaction_request-transaction_events_example :
    (handle_transaction_request client twox_128 61 (with_tracer (bytes "callTracer"))
      ≡ Run.ok (Response.single (nested_trace (nested_call (transaction_node 0 calling)))))
    × (handle_transaction_request client twox_128 61 (with_tracer [])
        ≡ Run.ok (
            Response.single (
              TransactionTrace.call_list
                (map Types.Call.blockscout (map (λ e. e.1) (transaction_entries 0 calling))))))
unfolding handle_params
transaction_request-transaction_events_example =
    transaction_request-transaction_events client twox_128 61 (with_tracer (bytes "callTracer"))
      (with_tracer []) 900 0 (BlockId.hash 801) header stored (1 ∷ 2 ∷ []) 4 (sent ∷ []) sent
      calling refl refl refl refl refl refl refl refl refl refl (omega arith) refl refl
      (omega arith)

transaction_request-HasForm_example :
    HasForm twox_128
      (some (bytes "callTracer"))
      (Response.single (nested_trace (nested_call (transaction_node 0 calling))))
transaction_request-HasForm_example =
    transaction_request-HasForm client twox_128 61 (with_tracer (bytes "callTracer"))
      (Response.single (nested_trace (nested_call (transaction_node 0 calling))))
      (transaction_request-transaction_events_example.0)

abbrev requester : Requester
requester input params = answered (task client twox_128 input params)

trace-no_panic_example :
    (trace_transaction requester 61 none ≢ Run.panic)
    × (trace_block requester latest none ≢ Run.panic)
trace-no_panic_example =
    trace-no_panic client twox_128 requester (λ input params. inr (inr refl)) 61 latest none
