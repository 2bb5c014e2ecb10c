-- ===== src/Tracing/Raw.antt =====
-- client/evm-tracing/src/listeners/raw.rs: the listener that logs every step of a transaction.
pub mod State
pub mod Changes
pub mod Filter
pub mod Panics
pub mod Logs
pub mod Storage
pub mod Words
use edgeware_node.Prelude.{
  ℕ, zero, suc, ◌+◌, ◌-◌, ◌*◌, ◌%◌, ◌^◌, List, [], ◌∷◌, ◌++◌, Option, none, some, Bool, true, false,
  not, ◌&&◌, ◌==◌, if◌then◌else◌, length, take, drop,
}
use edgeware_node.Prelude.Text.{Bytes}
use edgeware_node.Prelude.Results.{Result, ok, err}
use edgeware_node.BTreeMap
use edgeware_node.BTreeMap.{BTreeMap}
use edgeware_node.Tracing.Types.{H160, H256, U256, ContextType, from_opcode}
use edgeware_node.Tracing.Events.{
  Event, GasometerEvent, RuntimeEvent, Stack, Memory, ExitReason, Capture, Snapshot, gas,
}
use edgeware_node.Tracing.Events.{Context as EvmContext}
use edgeware_node.Tracing.Opcodes.{opcodes_string}
use edgeware_node.Tracing.Raw.State.{Context, Listener, RawStepLog, Step, convert_memory, new}
use edgeware_node.Tracing.Raw.Changes.{apply_changes}

-- The costs are registered at the top context; the step may be absent.
register_cost : ℕ → Snapshot → Option Step → Option Step
register_cost cost s none = none
register_cost cost s (some step) = some (record step { gas = gas s; gas_cost = cost })

record_cost : ℕ → Snapshot → List Context → Listener → Listener
unfolding register_cost
record_cost cost s [] l = l
record_cost cost s (c ∷ rest) l = record l {
  context_stack = record c { current_step = register_cost cost s c.current_step } ∷ rest;
  final_gas = s.used_gas;
}

unfoldable pub gasometer_event : GasometerEvent → Listener → Listener
unfolding record_cost
gasometer_event (GasometerEvent.record_transaction cost s) l = record l {
  new_context = true;
  final_gas = cost;
}
gasometer_event (GasometerEvent.record_cost cost s) l = record_cost cost s l.context_stack l
gasometer_event (GasometerEvent.record_dynamic_cost gas_cost m r s) l =
    record_cost gas_cost s l.context_stack l
gasometer_event (GasometerEvent.record_stipend stipend s) l = l
gasometer_event (GasometerEvent.record_refund refund s) l = l

abbrev pub fresh_context : H160 → Context
fresh_context address = record {
  storage_cache = [];
  address = address;
  current_step = none;
  global_storage_changes = [];
}

begin_context : EvmContext → Listener → Listener
begin_context context l =
    if l.new_context
    then record l {
      new_context = false;
      context_stack = fresh_context context.address ∷ l.context_stack;
    }
    else l

position_of : Result ℕ ExitReason → ℕ
position_of (ok n) = n
position_of (err reason) = 0

-- What a step keeps of the memory or of the stack: `none` outside is the panic of `expect`.
unfoldable pub kept {ℓ} : {A B : Type ℓ} → Bool → (A → B) → Option A → Option (Option B)
kept true f given = some none
kept false f none = none
kept false f (some a) = some (some (f a))

-- The step in the top context, of this depth.
with_step :
    Bytes → ℕ → ℕ → Option (Option Bytes) → Option (Option (List H256)) → Context → Option Context
with_step opcode depth position none stack c = none
with_step opcode depth position (some memory) none c = none
with_step opcode depth position (some memory) (some stack) c = some (record c {
  current_step = some (record {
    opcode = opcode;
    depth = depth;
    gas = 0;
    gas_cost = 0;
    position = position;
    memory = memory;
    stack = stack;
  });
})

put_top : List Context → Listener → Option Context → Option Listener
put_top rest l none = none
put_top rest l (some c) = some (record l { context_stack = c ∷ rest })

-- A step without a context is ignored.
step_at : Bytes → ℕ → Option Stack → Option Memory → List Context → Listener → Option Listener
step_at opcode position stack memory [] l = some l
step_at opcode position stack memory (c ∷ rest) l = put_top rest l (
    with_step opcode (length (c ∷ rest)) position (kept l.disable_memory (λ m. m.bytes) memory)
      (kept l.disable_stack (λ s. s.items) stack) c)

unfoldable pub log_of : Bool → BTreeMap H256 → Step → RawStepLog
log_of disable_storage storage_cache s = record {
  depth = s.depth;
  gas = s.gas;
  gas_cost = s.gas_cost;
  memory = elim s.memory [ none ↦ none | some bs ↦ some (convert_memory bs) ];
  op = s.opcode;
  pc = s.position;
  stack = s.stack;
  storage = if disable_storage then none else some storage_cache;
}

log_step : Context → List Context → Listener → Option Step → Listener
log_step c rest l none = l
log_step c rest l (some s) = record l {
  context_stack = record c { current_step = none } ∷ rest;
  step_logs = log_of l.disable_storage c.storage_cache s ∷ l.step_logs;
}

log_top : List Context → Listener → Listener
log_top [] l = l
log_top (c ∷ rest) l = log_step c rest l c.current_step

abbrev pub is_success : ExitReason → Bool
is_success (ExitReason.succeed s) = true
is_success (ExitReason.error e) = false
is_success ExitReason.revert = false
is_success ExitReason.fatal = false

-- What the context that has ended leaves to the contexts below it.
pass_on : Bool → Context → List Context → List Context
pass_on kept_changes c [] = []
pass_on false c (parent ∷ rest) = parent ∷ rest
pass_on true c (parent ∷ rest) =
    apply_changes (BTreeMap.insert c.address c.storage_cache c.global_storage_changes) parent ∷ rest

value_at_end : List Context → Bytes → Bytes → Bytes
value_at_end [] return_value before = return_value
value_at_end (c ∷ rest) return_value before = before

exit_top : ExitReason → Bytes → List Context → Listener → Listener
exit_top reason return_value [] l = l
exit_top reason return_value (c ∷ rest) l = record l {
  context_stack = pass_on (not l.disable_storage && is_success reason) c rest;
  return_value = value_at_end rest return_value l.return_value;
}

after_trap : Option ContextType → Listener → Listener
after_trap none l = l
after_trap (some t) l = record l { new_context = true }

unfoldable pub end_step : Result (Unit {0}) Capture → Bytes → Listener → Listener
unfolding exit_top value_at_end pass_on after_trap
end_step (ok done) return_value l = l
end_step (err (Capture.exit reason)) return_value l = exit_top reason return_value l.context_stack l
end_step (err (Capture.trap opcode)) return_value l = after_trap (from_opcode opcode) l

store : H256 → H256 → List Context → Listener → Listener
store index value [] l = l
store index value (c ∷ rest) l = if l.disable_storage then l else record l {
  context_stack = record c { storage_cache = BTreeMap.insert index value c.storage_cache } ∷ rest;
}

-- `none` is a panic.
unfoldable pub runtime_event : RuntimeEvent → Listener → Option Listener
unfolding begin_context position_of step_at put_top with_step log_top log_step store
runtime_event (RuntimeEvent.step context opcode position stack memory) l =
    let begun = begin_context context l in
    step_at opcode (position_of position) stack memory begun.context_stack begun
runtime_event (RuntimeEvent.step_result result return_value) l =
    some (end_step result return_value (log_top l.context_stack l))
runtime_event (RuntimeEvent.s_load address index value) l =
    some (store index value l.context_stack l)
runtime_event (RuntimeEvent.s_store address index value) l =
    some (store index value l.context_stack l)

unfoldable pub event : Event → Listener → Option Listener
event (Event.gasometer e) l = some (gasometer_event e l)
event (Event.runtime e) l = runtime_event e l
event (Event.evm e) l = some l
event Event.call_list_new l = some l

unfoldable pub events : List Event → Listener → Option Listener
events [] l = some l
events (e ∷ es) l = elim (event e l) [ none ↦ none | some m ↦ events es m ]
