-- ===== src/DebugRpc/Replay.antt =====
-- Tracing again, end to end: from the call trees of the transactions to the answers.
use edgeware_node.Prelude.{
  ℕ, ◌+◌, ◌^◌, ◌≤◌, ◌<◌, ◌≡◌, refl, ap, List, [], ◌∷◌, map, reverse, Option, some, true, arith, leb,
  get_elem?,
}
use edgeware_node.Prelude.Text.{Bytes}
use edgeware_node.Prelude.Results
use edgeware_node.BTreeMap.{BTreeMap}
use edgeware_node.Tracing.Types.{H256, BlockscoutCall}
use edgeware_node.Tracing.CallList.{default, events, finish_transaction}
use edgeware_node.Tracing.CallList
use edgeware_node.Tracing.CallList.Tree.{size}
use edgeware_node.Tracing.CallList.Blocks.{
  Transaction, call_tree, transaction_events, block_events, transaction_entries, block_entries,
  block_size,
}
use edgeware_node.Tracing.CallList.Settled.{finished_block_lem, finished_transaction_lem}
use edgeware_node.Tracing.Formatters.{format_blockscout}
use edgeware_node.Tracing.CallTracer.{CallTracerCall, format_call_tracer}
use edgeware_node.Tracing.CallTracer.Levels.{nested_call}
use edgeware_node.Tracing.CallTracer.Trees.{
  transaction_node, block_calls, format_call_tracer_of, format_transactions-block_entries,
}
use edgeware_node.TraceRpc.Filter.{RequestBlockId}
use edgeware_node.TraceRpc.BlockTraces.{Header}
use edgeware_node.Ethereum.{TransactionV2}
use edgeware_node.DebugRpc.Inputs.{
  Client, Stored, reference_of, block_of, transaction_of, extrinsics_of,
}
use edgeware_node.DebugRpc.Params.{handle_params}
use edgeware_node.DebugRpc.{
  Traced, nested_trace, call_list_listener, call_tracer_traces, block_answer, block_replay,
  block_with, handle_block_request, transaction_answer, transaction_format, transaction_replay,
  transaction_with, handle_transaction_request,
}
use edgeware_node.DebugRpc.Types
use edgeware_node.DebugRpc.Types.{
  TraceParams, TracerInput, TraceType, Response, TransactionTrace, BlockId, RpcResult, Run,
}

block_traces :
    (t : Transaction) (ts : List Transaction)
    → block_size (t ∷ ts) < 2 ^ 32
    → format_call_tracer (finish_transaction (events (block_events (t ∷ ts)) default))
      ≡ some (some (block_calls 0 (t ∷ ts)))
block_traces t ts room =
    format_call_tracer_of (finish_transaction (events (block_events (t ∷ ts)) default))
      (block_entries 0 (t ∷ ts)) (nested_call (transaction_node 0 t))
      (block_calls (0 + size (call_tree t)) ts) (finished_block_lem (t ∷ ts) room)
      (format_transactions-block_entries 0 (t ∷ ts))

-- A listener whose formatter gives these calls.
block_answer_of :
    (f : Traced) (calls : List CallTracerCall)
    → f.0 ≡ Results.ok tt
    → format_call_tracer (finish_transaction (events (f.1) default)) ≡ some (some calls)
    → block_answer TraceType.call_list TracerInput.call_tracer f
      ≡ Run.ok (Response.block (map nested_trace calls))
unfolding block_answer call_list_listener call_tracer_traces
block_answer_of f calls done traces = rw (done, traces)

transaction_answer_of :
    (f : Traced) (c : CallTracerCall)
    → f.0 ≡ Results.ok tt
    → format_call_tracer (finish_transaction (events (f.1) default)) ≡ some (some (c ∷ []))
    → transaction_answer TraceType.call_list TracerInput.call_tracer f
      ≡ Run.ok (Response.single (nested_trace c))
unfolding transaction_answer transaction_format call_list_listener call_tracer_traces
transaction_answer_of f c done traces = rw (done, traces)

blockscout_answer_of :
    (f : Traced) (calls : List BlockscoutCall)
    → f.0 ≡ Results.ok tt
    → format_blockscout (finish_transaction (events (f.1) default)) ≡ some calls
    → transaction_answer TraceType.call_list TracerInput.blockscout f
      ≡ Run.ok (Response.single (TransactionTrace.call_list (map Types.Call.blockscout calls)))
unfolding transaction_answer transaction_format call_list_listener
blockscout_answer_of f calls done traces = rw (done, traces, transaction_format)

format_blockscout_of :
    (l : CallList.Listener) (m : BTreeMap BlockscoutCall)
    → l.entries ≡ m ∷ []
    → format_blockscout l ≡ some (map (λ e. e.1) m)
unfolding format_blockscout
format_blockscout_of l m e = rw e

transaction_trace :
    (t : Transaction)
    → size (call_tree t) < 2 ^ 32
    → format_call_tracer (finish_transaction (events (transaction_events t) default))
      ≡ some (some (nested_call (transaction_node 0 t) ∷ []))
transaction_trace t room =
    format_call_tracer_of (finish_transaction (events (transaction_events t) default))
      (block_entries 0 (t ∷ [])) (nested_call (transaction_node 0 t)) []
      (ap reverse (finished_transaction_lem t room)) (format_transactions-block_entries 0 (t ∷ []))

module _ {Extrinsic : Type 0} (client : Client Extrinsic) (twox_128 : Bytes → ℕ) where
  block_of_lem :
      (request : RequestBlockId) (id : BlockId) (header : Header) (schema : Stored)
      (hashes : List H256)
      → reference_of client request ≡ Results.ok id
      → client.header id ≡ Results.ok (some header)
      → client.schema id ≡ some schema
      → schema.current_transaction_statuses ≡ some hashes
      → block_of client request ≡ Results.ok (id, header, hashes)
  unfolding block_of
  block_of_lem request id header schema hashes at_id at_header at_schema known =
      rw (at_id, at_header, at_schema, known, block_of)

  -- If the request names "callTracer", the client has the block's header, at least one Ethereum
  -- transaction in its statuses and its extrinsics, and the runtime replays the block with success,
  -- emitting the events of the call trees of its transactions, at least one, then the answer is one
  -- nested call for each of them, in order. This holds for blocks with fewer than 2^32 contexts.
  pub block_request-block_events :
      (request : RequestBlockId) (params : Option TraceParams) (id : BlockId) (header : Header)
      (schema : Stored) (hash : H256) (hashes : List H256) (exts : List Extrinsic) (t : Transaction)
      (ts : List Transaction)
      → handle_params twox_128 params ≡ Results.ok (TracerInput.call_tracer, TraceType.call_list)
      → reference_of client request ≡ Results.ok id
      → client.header id ≡ Results.ok (some header)
      → client.schema id ≡ some schema
      → schema.current_transaction_statuses ≡ some (hash ∷ hashes)
      → client.body id ≡ Results.ok (some exts)
      → client.initialize_block header.parent_hash header ≡ Results.ok tt
      → client.trace_block header.parent_hash exts (hash ∷ hashes)
        ≡ (Results.ok (Results.ok tt), block_events (t ∷ ts))
      → block_size (t ∷ ts) < 2 ^ 32
      → handle_block_request client twox_128 request params
        ≡ Run.ok (Response.block (map nested_trace (block_calls 0 (t ∷ ts))))
  unfolding handle_block_request block_with extrinsics_of block_replay
  block_request-block_events request params id header schema hash hashes exts t ts asked at_id
        at_header at_schema known at_body started replayed room =
      rw
        (
          asked,
          block_of_lem request id header schema (hash ∷ hashes) at_id at_header at_schema known,
          at_body,
          started,
          replayed,
          handle_block_request,
          block_with,
          extrinsics_of,
          block_replay,
        )
        (block_answer_of (Results.ok tt, block_events (t ∷ ts)) (block_calls 0 (t ∷ ts)) refl
          (block_traces t ts room))

  transaction_of_lem :
      (h : H256) (block : H256) (index : ℕ) (id : BlockId) (header : Header) (schema : Stored)
      (exts : List Extrinsic) (version : ℕ) (transactions : List TransactionV2)
      (transaction : TransactionV2)
      → client.load_transactions h ≡ Results.ok (some (block, index))
      → client.load_hash block ≡ Results.ok (some id)
      → client.header id ≡ Results.ok (some header)
      → client.body id ≡ Results.ok (some exts)
      → client.api_version header.parent_hash ≡ Results.ok (some version)
      → client.schema id ≡ some schema
      → schema.current_block ≡ some transactions
      → get_elem? transactions index ≡ some transaction
      → transaction_of client h ≡ Results.ok (version, header, exts, transaction)
  unfolding transaction_of
  transaction_of_lem h block index id header schema exts version transactions transaction at_hash
        at_block at_header at_body at_version at_schema at_transactions at_index =
      rw (
        at_hash, at_block, at_header, at_body, at_version, at_schema, at_transactions, at_index,
        transaction_of, extrinsics_of,
      )

  transaction_replay_lem :
      (version : ℕ) (header : Header) (exts : List Extrinsic) (transaction : TransactionV2)
      (t : Transaction)
      → 4 ≤ version
      → client.initialize_block header.parent_hash header ≡ Results.ok tt
      → client.trace_transaction header.parent_hash exts transaction
        ≡ (Results.ok (Results.ok tt), transaction_events t)
      → transaction_replay client version header exts transaction
        ≡ (Results.ok tt, transaction_events t)
  unfolding transaction_replay
  transaction_replay_lem version header exts transaction t new started replayed =
      let late : leb 4 version ≡ true = ground arith in rw (started, late, replayed)

  -- If the transaction, its block's header and extrinsics, and a runtime API of version 4 or later
  -- are found, and the runtime replays the transaction with success, emitting the events of its
  -- call tree, then a request that names "callTracer" is answered with the nested call of the tree,
  -- and one that names the Blockscout tracer with the entries of the tree in preorder. This holds
  -- for transactions with fewer than 2^32 contexts.
  pub transaction_request-transaction_events :
      (h : H256) (nesting listing : Option TraceParams) (block : H256) (index : ℕ) (id : BlockId)
      (header : Header) (schema : Stored) (exts : List Extrinsic) (version : ℕ)
      (transactions : List TransactionV2) (transaction : TransactionV2) (t : Transaction)
      → handle_params twox_128 nesting ≡ Results.ok (TracerInput.call_tracer, TraceType.call_list)
      → handle_params twox_128 listing ≡ Results.ok (TracerInput.blockscout, TraceType.call_list)
      → client.load_transactions h ≡ Results.ok (some (block, index))
      → client.load_hash block ≡ Results.ok (some id)
      → client.header id ≡ Results.ok (some header)
      → client.body id ≡ Results.ok (some exts)
      → client.api_version header.parent_hash ≡ Results.ok (some version)
      → client.schema id ≡ some schema
      → schema.current_block ≡ some transactions
      → get_elem? transactions index ≡ some transaction
      → 4 ≤ version
      → client.initialize_block header.parent_hash header ≡ Results.ok tt
      → client.trace_transaction header.parent_hash exts transaction
        ≡ (Results.ok (Results.ok tt), transaction_events t)
      → size (call_tree t) < 2 ^ 32
      → (handle_transaction_request client twox_128 h nesting
          ≡ Run.ok (Response.single (nested_trace (nested_call (transaction_node 0 t)))))
        × (handle_transaction_request client twox_128 h listing
            ≡ Run.ok (
                Response.single (
                  TransactionTrace.call_list
                    (map Types.Call.blockscout (map (λ e. e.1) (transaction_entries 0 t))))))
  unfolding handle_transaction_request transaction_with
  transaction_request-transaction_events h nesting listing block index id header schema exts version
        transactions transaction t asked asked_list at_hash at_block at_header at_body at_version
        at_schema at_transactions at_index new started replayed room =
      let found =
        transaction_of_lem h block index id header schema exts version transactions transaction
          at_hash at_block at_header at_body at_version at_schema at_transactions at_index in
      let traced = transaction_replay_lem version header exts transaction t new started replayed in
      (
        rw (asked, found, traced, handle_transaction_request, transaction_with)
            (transaction_answer_of (Results.ok tt, transaction_events t)
              (nested_call (transaction_node 0 t)) refl (transaction_trace t room)),
        rw (asked_list, found, traced, handle_transaction_request, transaction_with)
            (blockscout_answer_of (Results.ok tt, transaction_events t)
              (map (λ e. e.1) (transaction_entries 0 t)) refl
              (format_blockscout_of _ (transaction_entries 0 t) (finished_transaction_lem t room))),
      )
