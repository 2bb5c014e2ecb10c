-- ===== src/Tracing/CallList.antt =====
-- client/evm-tracing/src/listeners/call_list.rs: the listener that turns the events of a block
-- into call entries. The two vectors `context_stack` and `entries` are lists with the vector's last
-- element first.
pub mod Tree
pub mod Steps
pub mod Replay
pub mod Fresh
pub mod Blocks
pub mod Block
pub mod Settled
pub mod Transactions
use edgeware_node.Prelude.{
  ℕ, List, [], ◌∷◌, ◌++◌, Option, none, some, Bool, true, false, ◌==◌, if◌then◌else◌,
}
use edgeware_node.Prelude.Text.{Bytes, bytes}
use edgeware_node.Prelude.Words.{add_u32, add_u64, sub_u64}
use edgeware_node.Prelude.Results.{ok, err}
use edgeware_node.BTreeMap
use edgeware_node.BTreeMap.{BTreeMap}
use edgeware_node.Tracing.Types.{
  H160, U256, CallType, ContextType, CallResult, CreateResult, BlockscoutCall, BlockscoutCallInner,
  from_opcode,
}
use edgeware_node.Tracing.Events.{
  Snapshot, GasometerEvent, RuntimeEvent, EvmEvent, Event, ExitReason, ExitError, ExitSucceed,
  Capture, gas,
}
use edgeware_node.Tracing.Events.{Context as EvmContext}
use edgeware_node.Tracing.Entries.{
  Context, TracingVersion, call_result, context_entry, context_gas_used, create_result,
  data_cost_unpaid, early_exit, error_message, unpaid_entry,
}

pub record Listener : Type 0 where
  pub version : TracingVersion
  pub transaction_cost : ℕ
  pub entries : List (BTreeMap BlockscoutCall)
  pub entries_next_index : ℕ
  pub context_stack : List Context
  pub call_type : Option CallType
  pub skip_next_context : Bool
  pub step_result_entry : Option (ℕ × BlockscoutCall)
  pub call_list_first_transaction : Bool
  pub record_transaction_event_only : Bool

-- `Listener::default`.
abbrev pub default : Listener
default = record {
  version = TracingVersion.legacy;
  transaction_cost = 0;
  entries = [];
  entries_next_index = 0;
  context_stack = [];
  call_type = none;
  skip_next_context = false;
  step_result_entry = none;
  call_list_first_transaction = true;
  record_transaction_event_only = false;
}

insert_last : ℕ → BlockscoutCall → List (BTreeMap BlockscoutCall) → List (BTreeMap BlockscoutCall)
insert_last key entry [] = BTreeMap.insert key entry [] ∷ []
insert_last key entry (last ∷ rest) = BTreeMap.insert key entry last ∷ rest

unfoldable pub insert_entry : ℕ → BlockscoutCall → Listener → Listener
unfolding insert_last
insert_entry key entry l = record l { entries = insert_last key entry l.entries }

-- The stack without its top, and the entry made of the top.
pop_stack : ℕ → ExitReason → Bytes → List Context → List Context × Option (ℕ × BlockscoutCall)
pop_stack cost reason return_value [] = ([], none)
pop_stack cost reason return_value (c ∷ rest) = (
  rest,
  some (
    c.entries_index,
    context_entry cost c (call_result reason return_value) (create_result reason c.to return_value),
  ),
)

unfoldable pub pop_context_to_entry :
    ExitReason → Bytes → Listener → Listener × Option (ℕ × BlockscoutCall)
unfolding pop_stack
pop_context_to_entry reason return_value l =
    let popped = pop_stack l.transaction_cost reason return_value l.context_stack in
    (record l { context_stack = popped.0 }, popped.1)

-- `context_stack.into_iter().next()`: the outermost context.
outermost : List Context → Option Context
outermost [] = none
outermost (c ∷ []) = some c
outermost (c ∷ d ∷ rest) = outermost (d ∷ rest)

finish_context : Option Context → Listener → Listener
finish_context (some c) l =
    let entry =
      context_entry l.transaction_cost c (CallResult.error early_exit)
        (CreateResult.error early_exit) in
    record (insert_entry c.entries_index entry l) { entries_next_index = add_u32 c.entries_index 1 }
finish_context none l =
    if l.record_transaction_event_only
    then record (insert_entry l.entries_next_index unpaid_entry l) {
      entries_next_index = add_u32 l.entries_next_index 1;
    }
    else l

unfoldable pub finish_transaction : Listener → Listener
unfolding outermost finish_context
finish_transaction l = finish_context (outermost l.context_stack) (record l { context_stack = [] })

record_gas : Snapshot → List Context → List Context
record_gas s [] = []
record_gas s (c ∷ rest) = elim c.start_gas [
  | none ↦ record c { start_gas = some (gas s); gas = gas s } ∷ rest
  | some g ↦ record c { gas = gas s } ∷ rest
]

unfoldable pub gasometer_event : GasometerEvent → Listener → Listener
unfolding record_gas
gasometer_event (GasometerEvent.record_cost cost s) l = record l {
  context_stack = record_gas s l.context_stack;
}
gasometer_event (GasometerEvent.record_dynamic_cost c m r s) l = record l {
  context_stack = record_gas s l.context_stack;
}
gasometer_event (GasometerEvent.record_stipend stipend s) l = record l {
  context_stack = record_gas s l.context_stack;
}
gasometer_event (GasometerEvent.record_transaction cost s) l = record l {
  transaction_cost = cost;
  record_transaction_event_only = true;
}
gasometer_event (GasometerEvent.record_refund refund s) l = l

trap_event : Option ContextType → Listener → Listener
trap_event (some (ContextType.call t)) l = record l { call_type = some t }
trap_event (some ContextType.create) l = l
trap_event none l = l

keep_entry : TracingVersion → Option (ℕ × BlockscoutCall) → Listener → Listener
keep_entry version none l = l
keep_entry TracingVersion.legacy (some (key, entry)) l = insert_entry key entry l
keep_entry TracingVersion.early_transact (some (key, entry)) l = record l {
  step_result_entry = some (key, entry);
}

unfoldable pub runtime_event : RuntimeEvent → Listener → Listener
unfolding trap_event keep_entry
runtime_event (RuntimeEvent.step_result (err (Capture.trap opcode)) return_value) l =
    trap_event (from_opcode opcode) l
runtime_event (RuntimeEvent.step_result (err (Capture.exit reason)) return_value) l =
    let popped = pop_context_to_entry reason return_value l in
    keep_entry l.version popped.1 popped.0
runtime_event (RuntimeEvent.step_result (ok done) return_value) l = l
runtime_event (RuntimeEvent.step c o p s m) l = l
runtime_event (RuntimeEvent.s_load a i v) l = l
runtime_event (RuntimeEvent.s_store a i v) l = l

unfoldable pub push_context : Context → Listener → Listener
push_context c l = record l {
  context_stack = c ∷ l.context_stack;
  entries_next_index = add_u32 l.entries_next_index 1;
}

-- A context that starts now.
abbrev pub new_context : Listener → ContextType → H160 → List ℕ → U256 → Bytes → H160 → Context
new_context l context_type from trace_address value input to = record {
  entries_index = l.entries_next_index;
  context_type = context_type;
  from = from;
  trace_address = trace_address;
  subtraces = 0;
  value = value;
  gas = 0;
  start_gas = none;
  input = input;
  to = to;
}

-- The body that the three `Transact` events share.
unfoldable pub transact : ContextType → H160 → U256 → Bytes → H160 → Listener → Listener
unfolding push_context
transact context_type caller value input to l =
    record (push_context (new_context l context_type caller [] value input to) l) {
      record_transaction_event_only = false;
      version = TracingVersion.early_transact;
      skip_next_context = true;
    }

-- The trace address of the next child of the top context, and the stack with that child counted.
unfoldable pub next_child : List Context → List ℕ × List Context
next_child [] = ([], [])
next_child (c ∷ rest) =
    (c.trace_address ++ c.subtraces ∷ [], record c { subtraces = add_u32 c.subtraces 1 } ∷ rest)

unfoldable pub child_call_type : Option CallType → Bool → CallType
child_call_type none true = CallType.static_call
child_call_type none false = CallType.call
child_call_type (some t) is_static = t

parent_to : List Context → H160 → H160
parent_to [] caller = caller
parent_to (parent ∷ rest) caller = parent.to

unfoldable pub call_event : H160 → Bytes → Bool → EvmContext → Listener → Listener
unfolding push_context next_child child_call_type parent_to
call_event code_address input is_static context l =
    if l.skip_next_context
    then record l { record_transaction_event_only = false; skip_next_context = false }
    else (let child = next_child l.context_stack in
        push_context
          (new_context l (ContextType.call (child_call_type l.call_type is_static))
            (parent_to l.context_stack context.caller) child.0 context.apparent_value input
            code_address)
          (record l { record_transaction_event_only = false; context_stack = child.1 }))

unfoldable pub create_event : H160 → H160 → U256 → Bytes → Listener → Listener
unfolding push_context next_child
create_event caller address value init_code l =
    if l.skip_next_context
    then record l { record_transaction_event_only = false; skip_next_context = false }
    else (let child = next_child l.context_stack in
        push_context (new_context l ContextType.create caller child.0 value init_code address)
          (record l { record_transaction_event_only = false; context_stack = child.1 }))

unfoldable pub suicide_event : H160 → H160 → U256 → Listener → Listener
unfolding next_child
suicide_event address target balance l =
    let child = next_child l.context_stack in
    record (insert_entry l.entries_next_index
      (record {
        from = address;
        trace_address = child.0;
        subtraces = 0;
        value = 0;
        gas = 0;
        gas_used = 0;
        inner = BlockscoutCallInner.self_destruct balance target;
      })
      (record l { context_stack = child.1 })) {
        entries_next_index = add_u32 l.entries_next_index 1;
      }

exit_with : Option (ℕ × BlockscoutCall) → Listener → Listener
exit_with none l = l
exit_with (some (key, entry)) l = insert_entry key entry l

-- The entry that `StepResult` left, or else one made of the top context.
unfoldable pub exit_event : ExitReason → Bytes → Listener → Listener
unfolding exit_with
exit_event reason return_value l = elim l.step_result_entry [
  | some e ↦
      exit_with (some e)
        (record l { record_transaction_event_only = false; step_result_entry = none })
  | none ↦
      (let popped =
          pop_context_to_entry reason return_value
            (record l { record_transaction_event_only = false }) in
        exit_with popped.1 popped.0)
]

unfoldable pub evm_event : EvmEvent → Listener → Listener
evm_event (EvmEvent.transact_call caller address value input gas_limit) l =
    transact (ContextType.call CallType.call) caller value input address l
evm_event (EvmEvent.transact_create caller value init_code gas_limit address) l =
    transact ContextType.create caller value init_code address l
evm_event (EvmEvent.transact_create2 caller value init_code salt gas_limit address) l =
    transact ContextType.create caller value init_code address l
evm_event (EvmEvent.call code_address transfer input target_gas is_static context) l =
    call_event code_address input is_static context l
evm_event (EvmEvent.create caller address scheme value init_code target_gas) l =
    create_event caller address value init_code l
evm_event (EvmEvent.suicide address target balance) l = suicide_event address target balance l
evm_event (EvmEvent.exit reason return_value) l = exit_event reason return_value l
evm_event (EvmEvent.precompile_subcall a t i g s c) l = record l { call_type = some CallType.call }

-- `event`, of the trait `Listener`.
unfoldable pub event : Event → Listener → Listener
event (Event.gasometer e) l = gasometer_event e l
event (Event.runtime e) l = runtime_event e l
event (Event.evm e) l = evm_event e l
event Event.call_list_new l =
    if l.call_list_first_transaction
    then record l { call_list_first_transaction = false }
    else (let done = finish_transaction l in
        record done { skip_next_context = false; entries = [] ∷ done.entries })

unfoldable pub events : List Event → Listener → Listener
events [] l = l
events (e ∷ es) l = events es (event e l)
