-- ===== src/Tracing/Formatters.antt =====
-- client/evm-tracing/src/formatters, trace_filter.rs and blockscout.rs: the responses made of the
-- entries of a call list listener.
use edgeware_node.Prelude.{ℕ, suc, ◌%◌, ◌^◌, List, [], ◌∷◌, ◌++◌, map, reverse, Option, none, some}
use edgeware_node.BTreeMap.{BTreeMap}
use edgeware_node.Tracing.Types.{
  U256, CallResult, CreateResult, CreateType, BlockscoutCall, BlockscoutCallInner, TransactionTrace,
  TransactionTraceAction, TransactionTraceResult, TransactionTraceOutput,
}
use edgeware_node.Tracing.CallList.{Listener}

-- `entries.retain(|x| !x.is_empty())`
unfoldable pub retain_filled : List (BTreeMap BlockscoutCall) → List (BTreeMap BlockscoutCall)
retain_filled [] = []
retain_filled ([] ∷ ms) = retain_filled ms
retain_filled ((e ∷ m) ∷ ms) = (e ∷ m) ∷ retain_filled ms

call_output : U256 → CallResult → TransactionTraceOutput
call_output gas_used (CallResult.output output) =
    TransactionTraceOutput.result (TransactionTraceResult.call gas_used output)
call_output gas_used (CallResult.error e) = TransactionTraceOutput.error e

create_output : U256 → CreateResult → TransactionTraceOutput
create_output gas_used (CreateResult.success address code) =
    TransactionTraceOutput.result (TransactionTraceResult.create address code gas_used)
create_output gas_used (CreateResult.error e) = TransactionTraceOutput.error e

action_of : BlockscoutCall → BlockscoutCallInner → TransactionTraceAction
action_of t (BlockscoutCallInner.call call_type to input res) =
    TransactionTraceAction.call call_type t.from t.gas input to t.value
action_of t (BlockscoutCallInner.create init res) =
    TransactionTraceAction.create CreateType.create t.from t.gas init t.value
action_of t (BlockscoutCallInner.self_destruct balance to) =
    TransactionTraceAction.suicide t.from balance to

output_of : BlockscoutCall → BlockscoutCallInner → TransactionTraceOutput
output_of t (BlockscoutCallInner.call call_type to input res) = call_output t.gas_used res
output_of t (BlockscoutCallInner.create init res) = create_output t.gas_used res
output_of t (BlockscoutCallInner.self_destruct balance to) =
    TransactionTraceOutput.result TransactionTraceResult.suicide

-- The trace of an entry of the transaction with this index. The hashes and the block's number are
-- filled in by the caller.
unfoldable pub format_entry : ℕ → BlockscoutCall → TransactionTrace
unfolding call_output create_output action_of output_of
format_entry eth_tx_index t = record {
  action = action_of t t.inner;
  block_hash = 0;
  block_number = 0;
  output = output_of t t.inner;
  subtraces = t.subtraces;
  trace_address = t.trace_address;
  transaction_hash = 0;
  transaction_position = eth_tx_index % 2 ^ 32;
}

unfoldable pub format_from : ℕ → List (BTreeMap BlockscoutCall) → List TransactionTrace
format_from eth_tx_index [] = []
format_from eth_tx_index (m ∷ ms) =
    map (λ e. format_entry eth_tx_index (e.1)) m ++ format_from (suc eth_tx_index) ms

-- `trace_filter::Formatter::format`.
unfoldable pub format : Listener → Option (List TransactionTrace)
format l = some (format_from 0 (retain_filled (reverse l.entries)))

-- `blockscout::Formatter::format`: the entries of the last map, in the order of their indices.
unfoldable pub format_blockscout : Listener → Option (List BlockscoutCall)
format_blockscout l = elim l.entries [ [] ↦ none | last ∷ rest ↦ some (map (λ e. e.1) last) ]
