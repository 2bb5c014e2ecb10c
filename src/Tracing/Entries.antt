-- ===== src/Tracing/Entries.antt =====
-- client/evm-tracing/src/listeners/call_list.rs: the execution contexts, and the entries made of them.
use edgeware_node.Prelude.{ℕ, List, [], Option, none, some, ◌==◌, if◌then◌else◌}
use edgeware_node.Prelude.Text.{Bytes, bytes}
use edgeware_node.Prelude.Words.{add_u64, sub_u64}
use edgeware_node.Tracing.Types.{
  H160, U256, CallType, ContextType, CallResult, CreateResult, BlockscoutCall, BlockscoutCallInner,
}
use edgeware_node.Tracing.Events.{ExitReason, ExitError, ExitSucceed}

pub data TracingVersion : Type 0 where
  early_transact legacy : TracingVersion

pub record Context : Type 0 where
  pub entries_index : ℕ
  pub context_type : ContextType
  pub from : H160
  pub trace_address : List ℕ
  pub subtraces : ℕ
  pub value : U256
  pub gas : ℕ
  pub start_gas : Option ℕ
  pub input : Bytes
  pub to : H160

unfoldable pub error_message : ExitError → Bytes
error_message ExitError.stack_underflow = bytes "stack underflow"
error_message ExitError.stack_overflow = bytes "stack overflow"
error_message ExitError.invalid_jump = bytes "invalid jump"
error_message ExitError.invalid_range = bytes "invalid range"
error_message ExitError.designated_invalid = bytes "designated invalid"
error_message ExitError.call_too_deep = bytes "call too deep"
error_message ExitError.create_collision = bytes "create collision"
error_message ExitError.create_contract_limit = bytes "create contract limit"
error_message ExitError.out_of_offset = bytes "out of offset"
error_message ExitError.out_of_gas = bytes "out of gas"
error_message ExitError.out_of_fund = bytes "out of funds"
error_message (ExitError.other message) = message
error_message (ExitError.unnamed code) = bytes "unexpected error"

-- The two `match &reason` of `pop_context_to_entry`.
unfoldable pub call_result : ExitReason → Bytes → CallResult
call_result (ExitReason.succeed ExitSucceed.returned) return_value = CallResult.output return_value
call_result (ExitReason.succeed ExitSucceed.unnamed) return_value = CallResult.output []
call_result (ExitReason.error e) return_value = CallResult.error (error_message e)
call_result ExitReason.revert return_value = CallResult.error (bytes "execution reverted")
call_result ExitReason.fatal return_value = CallResult.error []

unfoldable pub create_result : ExitReason → H160 → Bytes → CreateResult
create_result (ExitReason.succeed _) to return_value = CreateResult.success to return_value
create_result (ExitReason.error e) to return_value = CreateResult.error (error_message e)
create_result ExitReason.revert to return_value = CreateResult.error (bytes "execution reverted")
create_result ExitReason.fatal to return_value = CreateResult.error []

unfoldable pub start_or_zero : Option ℕ → ℕ
start_or_zero none = 0
start_or_zero (some g) = g

-- `gas_used` of a context, with the cost of the transaction added to the entry with index 0.
unfoldable pub context_gas_used : ℕ → Context → ℕ
unfolding start_or_zero
context_gas_used cost c =
    let used = sub_u64 (start_or_zero c.start_gas) c.gas in
    if c.entries_index == 0 then add_u64 used cost else used

unfoldable pub inner_of : Context → CallResult → CreateResult → ContextType → BlockscoutCallInner
inner_of c res created (ContextType.call t) = BlockscoutCallInner.call t c.to c.input res
inner_of c res created ContextType.create = BlockscoutCallInner.create c.input created

-- The entry of a context that ends with these results.
unfoldable pub context_entry : ℕ → Context → CallResult → CreateResult → BlockscoutCall
unfolding inner_of
context_entry cost c res created = record {
  from = c.from;
  trace_address = c.trace_address;
  subtraces = c.subtraces;
  value = c.value;
  gas = c.gas;
  gas_used = context_gas_used cost c;
  inner = inner_of c res created c.context_type;
}

unfoldable pub early_exit : Bytes
early_exit = bytes "early exit (out of gas, stack overflow, direct call to precompile, ...)"

unfoldable pub data_cost_unpaid : Bytes
data_cost_unpaid =
    bytes "transaction could not pay its own data cost (impossible to gather more info)"

unfoldable pub unpaid_entry : BlockscoutCall
unpaid_entry = record {
  from = 0;
  trace_address = [];
  subtraces = 0;
  value = 0;
  gas = 0;
  gas_used = 0;
  inner = BlockscoutCallInner.call CallType.call 0 [] (CallResult.error data_cost_unpaid);
}
