-- ===== src/Tests/CallTracer.antt =====
-- The call tracer's answer for the block of `Tests.Tracing`, and for items without a parent; the
-- runtime's replay of such a block.
use edgeware_node.Prelude.{ℕ, ◌+◌, ◌≡◌, refl, List, [], ◌∷◌, ◌++◌, some, true, arith, ◌==◌}
use edgeware_node.Prelude.Text.{bytes}
use edgeware_node.Prelude.Results.{ok}
use edgeware_node.Tracing.Types.{H256}
use edgeware_node.Tracing.Events.{Event}
use edgeware_node.Tracing.CallList.{default, events}
use edgeware_node.Tracing.CallList.Blocks.{Transaction, transaction_events, block_events}
use edgeware_node.Tracing.CallTracer.{
  CallTracerCall, CallTracerInner, call_tracer_call, no_calls, nested, format_call_tracer,
}
use edgeware_node.Tracing.CallTracer.Sorted.{depth}
use edgeware_node.Tracing.CallTracer.Rounds.{nested-one}
use edgeware_node.Tracing.CallTracer.Trees.{block_calls, format_call_tracer-block_events}
use edgeware_node.Ethereum.{TransactionAction, TransactionV2}
use edgeware_node.Runtime.TraceApi.{Extrinsic, Machine, contains, trace_block, trace_transaction}
use edgeware_node.Runtime.TraceApi.Agreement.{trace_transaction-trace_block}
use edgeware_node.Tests.Tracing.{calling, creating, two}

format_call_tracer-block_events_example :
    format_call_tracer (events (block_events two) default) ≡ some (some (block_calls 0 two))
format_call_tracer-block_events_example =
    format_call_tracer-block_events calling (creating ∷ []) (omega arith)

abbrev item : List ℕ → CallTracerCall
item address =
    call_tracer_call 10 (some address) 5 4 (CallTracerInner.self_destruct (bytes "X") 1 2) no_calls

-- The second has no parent, and the last two are at one address.
nested-one_example :
    (r : CallTracerCall) × (nested
        (item [] ∷ item (3 ∷ 1 ∷ []) ∷ item (0 ∷ []) ∷ item (0 ∷ 2 ∷ []) ∷ item (0 ∷ 2 ∷ []) ∷ [])
      ≡ some (r ∷ []))
    × (depth r ≡ 0)
nested-one_example =
    nested-one (item [])
      (item (3 ∷ 1 ∷ []) ∷ item (0 ∷ []) ∷ item (0 ∷ 2 ∷ []) ∷ item (0 ∷ 2 ∷ []) ∷ []) refl
      (omega arith, (omega arith, (omega arith, (omega arith, tt))))

-- The state counts the extrinsics that have been applied; a transaction's cost is its hash plus the
-- state.
abbrev sent : ℕ → TransactionV2
sent nonce = TransactionV2.legacy (record {
  nonce = nonce;
  gas_price = 1;
  gas_limit = 90000;
  action = TransactionAction.call 20;
  value = 5;
  input = bytes "transfer";
  signature = [];
})

abbrev hash_of : TransactionV2 → H256
hash_of (TransactionV2.legacy t) = t.nonce + 60
hash_of (TransactionV2.eip2930 t) = 0
hash_of (TransactionV2.eip1559 t) = 0

abbrev tree : TransactionV2 → ℕ → Transaction
tree t s = record calling { cost = hash_of t + s }

abbrev emitted_by : Extrinsic ℕ → ℕ → List Event
emitted_by (Extrinsic.ethereum t) s = transaction_events (tree t s)
emitted_by (Extrinsic.other call) s = []

abbrev machine : Machine ℕ ℕ
machine = record {
  apply_extrinsic = λ e s. s + 1;
  emitted = emitted_by;
  transaction_hash = hash_of;
  is_same = λ t u. hash_of t == hash_of u;
}

abbrev exts : List (Extrinsic ℕ)
exts =
    Extrinsic.other 9
    ∷ Extrinsic.ethereum (sent 1)
    ∷ Extrinsic.ethereum (sent 2)
    ∷ Extrinsic.other 8
    ∷ []

trace_transaction-trace_block_example :
    ((trace_transaction machine true 0 exts (sent 2)).0 ≡ ok tt)
    × ((trace_block machine true 0 exts (61 ∷ 62 ∷ [])).1
        ≡ (trace_block machine true 0
            (Extrinsic.other 9 ∷ Extrinsic.ethereum (sent 1) ∷ [])
            (61 ∷ 62 ∷ [])).1
          ++ Event.call_list_new
            ∷ ((trace_transaction machine true 0 exts (sent 2)).1
                ++ (trace_block machine true 3 (Extrinsic.other 8 ∷ []) (61 ∷ 62 ∷ [])).1))
unfolding contains
trace_transaction-trace_block_example =
    trace_transaction-trace_block machine 0 (sent 2)
      (Extrinsic.other 9 ∷ Extrinsic.ethereum (sent 1) ∷ []) (Extrinsic.other 8 ∷ []) (61 ∷ 62 ∷ [])
      refl (tt, (refl, tt)) refl
