-- ===== src/Tests/Raw.antt =====
-- A transaction with one step in its outer context and a delegate call, logged without the memory.
use edgeware_node.Prelude.{
  ◌++◌, ◌≡◌, ◌≢◌, refl, ℕ, inr, List, [], ◌∷◌, map, none, some, true, false, arith,
}
use edgeware_node.Prelude.Text.{bytes}
use edgeware_node.Prelude.Results.{ok, err}
use edgeware_node.BTreeMap
use edgeware_node.Tracing.Types.{CallType, ContextType, from_opcode}
use edgeware_node.Tracing.Events.{
  Snapshot, GasometerEvent, RuntimeEvent, Event, ExitReason, ExitSucceed, Stack, Memory, Capture,
}
use edgeware_node.Tracing.Events.{Context as EvmContext}
use edgeware_node.Tracing.Opcodes.{opcodes_string}
use edgeware_node.Tracing.Opcodes.Contexts.{from_opcode-opcodes_string}
use edgeware_node.Tracing.Raw.State.{Context, Listener, new}
use edgeware_node.Tracing.Raw.{
  events, end_step, event, runtime_event, gasometer_event, kept, log_of,
}
use edgeware_node.Tracing.Raw.Filter.{InterpreterEvent, step_event_filter}
use edgeware_node.Tracing.Raw.State.{convert_memory}
use edgeware_node.Tracing.Raw.Words.{convert_memory-words, big_endian, zeros}
use edgeware_node.Tracing.Raw.Panics.{Emitted, interpreter, gasometer, emitted, own_filter_suffices}
use edgeware_node.Tracing.Raw.Logs.{AllLogs, events-logs}
use edgeware_node.Tracing.Raw.Storage.{end_step-storage}

abbrev snapshot : Snapshot
snapshot = record { gas_limit = 900; memory_gas = 3; used_gas = 40; refunded_gas = 0 }

abbrev at_20 : EvmContext
at_20 = record { address = 20; caller = 10; apparent_value = 0 }

abbrev stack : Stack
stack = record { items = 7 ∷ 8 ∷ []; limit = 1024 }

abbrev memory : Memory
memory = record { bytes = bytes "memory"; effective_len = 32; limit = 4096 }

abbrev transaction : List Emitted
transaction =
    gasometer (GasometerEvent.record_transaction 21000 snapshot)
    ∷ interpreter (InterpreterEvent.step at_20 85 (ok 2) stack memory)
    ∷ gasometer (GasometerEvent.record_cost 5 snapshot)
    ∷ interpreter (InterpreterEvent.s_store 20 1 99)
    ∷ interpreter (InterpreterEvent.step_done [])
    ∷ interpreter (InterpreterEvent.step at_20 244 (ok 3) stack memory)
    ∷ interpreter (InterpreterEvent.step_trap 244 [])
    ∷ interpreter (InterpreterEvent.step at_20 0 (ok 0) stack memory)
    ∷ interpreter (InterpreterEvent.step_exit (ExitReason.succeed ExitSucceed.returned) [])
    ∷ []

from_opcode-opcodes_string_example :
    from_opcode (opcodes_string 244) ≡ some (ContextType.call CallType.delegate_call)
from_opcode-opcodes_string_example = from_opcode-opcodes_string 244

own_filter_suffices_example :
    events
      (map (emitted (step_event_filter (new false false false))) transaction)
      (new false false false)
    ≢ none
own_filter_suffices_example = own_filter_suffices false false false transaction

abbrev logged : List Event
logged =
    Event.gasometer (GasometerEvent.record_transaction 21000 snapshot)
    ∷ Event.runtime (RuntimeEvent.step at_20 (bytes "SStore") (ok 2) (some stack) none)
    ∷ Event.runtime (RuntimeEvent.s_store 20 1 99)
    ∷ Event.runtime (RuntimeEvent.step_result (ok tt) [])
    ∷ []

abbrev outer : Context
outer = record {
  storage_cache = (1, 99) ∷ [];
  address = 20;
  current_step = none;
  global_storage_changes = [];
}

-- The listener after these events.
abbrev after_logged : Listener
after_logged = record {
  disable_storage = false;
  disable_memory = true;
  disable_stack = false;
  new_context = false;
  context_stack = outer ∷ [];
  step_logs =
      record {
        depth = 1;
        gas = 0;
        gas_cost = 0;
        memory = none;
        op = bytes "SStore";
        pc = 2;
        stack = some (7 ∷ 8 ∷ []);
        storage = some ((1, 99) ∷ []);
      }
      ∷ [];
  return_value = [];
  final_gas = 21000;
}

events-logs_example : AllLogs false true false after_logged.step_logs
unfolding events event runtime_event gasometer_event kept end_step log_of BTreeMap.insert
events-logs_example = events-logs false true false logged after_logged refl

abbrev delegated : Context
delegated = record outer { storage_cache = (1, 55) ∷ (2, 66) ∷ [] }

abbrev delegating : Listener
delegating = record after_logged { context_stack = delegated ∷ outer ∷ [] }

end_step-storage_example :
    (after : Context) × ((end_step
        (err (Capture.exit (ExitReason.succeed ExitSucceed.returned)))
        []
        delegating).context_stack
      ≡ after ∷ [])
    × (BTreeMap.get 1 after.storage_cache ≡ some 55)
unfolding BTreeMap.get
end_step-storage_example =
    end_step-storage delegating delegated outer [] [] 1 refl refl (omega arith, tt) refl
      (ExitReason.succeed ExitSucceed.returned)

convert_memory-words_example :
    (w : ℕ) × (convert_memory (9 ∷ 7 ∷ []) ≡ w ∷ convert_memory [])
    × (big_endian 32 w ≡ zeros 30 ++ 9 ∷ 7 ∷ [])
convert_memory-words_example =
    convert_memory-words 9 (7 ∷ []) [] (omega arith, (omega arith, tt)) (inr (omega arith, refl))
