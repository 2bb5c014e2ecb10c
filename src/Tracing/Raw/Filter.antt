-- ===== src/Tracing/Raw/Filter.antt =====
-- `step_event_filter` of client/evm-tracing/src/listeners/raw.rs, and the conversion of the
-- interpreter's events, `from_evm_event` of primitives/rpc/evm-tracing-events/src/runtime.rs.
use edgeware_node.Prelude.{ℕ, Option, none, some, Bool, true, false, not}
use edgeware_node.Prelude.Text.{Bytes}
use edgeware_node.Prelude.Results.{Result, ok, err}
use edgeware_node.Tracing.Types.{H160, H256}
use edgeware_node.Tracing.Events.{RuntimeEvent, Stack, Memory, ExitReason, Capture}
use edgeware_node.Tracing.Events.{Context as EvmContext}
use edgeware_node.Tracing.Opcodes.{opcodes_string}
use edgeware_node.Tracing.Raw.State.{Listener}

-- `StepEventFilter`.
pub record StepEventFilter : Type 0 where
  pub enable_stack : Bool
  pub enable_memory : Bool

unfoldable pub step_event_filter : Listener → StepEventFilter
step_event_filter l = record {
  enable_stack = not l.disable_stack;
  enable_memory = not l.disable_memory;
}

-- What the interpreter emits: opcodes are bytes, and the stack and the memory are always there.
pub data InterpreterEvent : Type 0 where
  step : EvmContext → ℕ → Result ℕ ExitReason → Stack → Memory → InterpreterEvent
  step_exit : ExitReason → Bytes → InterpreterEvent
  step_trap : ℕ → Bytes → InterpreterEvent
  step_done : Bytes → InterpreterEvent
  s_load s_store : H160 → H256 → H256 → InterpreterEvent

unfoldable pub if_enabled : {A : Type 0} → Bool → A → Option A
if_enabled true a = some a
if_enabled false a = none

unfoldable pub from_evm_event : StepEventFilter → InterpreterEvent → RuntimeEvent
unfolding if_enabled
from_evm_event filter (step context opcode position stack memory) =
    RuntimeEvent.step context (opcodes_string opcode) position
      (if_enabled filter.enable_stack stack) (if_enabled filter.enable_memory memory)
from_evm_event filter (step_exit reason return_value) =
    RuntimeEvent.step_result (err (Capture.exit reason)) return_value
from_evm_event filter (step_trap opcode return_value) =
    RuntimeEvent.step_result (err (Capture.trap (opcodes_string opcode))) return_value
from_evm_event filter (step_done return_value) = RuntimeEvent.step_result (ok tt) return_value
from_evm_event filter (s_load address index value) = RuntimeEvent.s_load address index value
from_evm_event filter (s_store address index value) = RuntimeEvent.s_store address index value
