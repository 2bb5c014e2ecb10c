-- ===== src/Tracing/CallList/Tree.antt =====
-- What the call list listener is for, described by itself: a tree of calls, the events that the
-- EVM emits while it runs, and the numbered entries of the tree in preorder.
use edgeware_node.Prelude.{
  ℕ, suc, ◌+◌, List, [], ◌∷◌, ◌++◌, Option, none, some, Bool, if◌then◌else◌, ◌==◌,
}
use edgeware_node.Prelude.Text.{Bytes, bytes}
use edgeware_node.Prelude.Results.{err}
use edgeware_node.BTreeMap.{BTreeMap}
use edgeware_node.Tracing.Types.{
  H160, U256, CallType, ContextType, CallResult, CreateResult, BlockscoutCall, BlockscoutCallInner,
}
use edgeware_node.Tracing.Events.{
  Snapshot, GasometerEvent, RuntimeEvent, EvmEvent, Event, ExitReason, ExitSucceed, Capture,
  Transfer, CreateScheme, gas,
}
use edgeware_node.Tracing.Events.{Context as EvmContext}
use edgeware_node.Prelude.Words.{add_u64, sub_u64}
use edgeware_node.Tracing.Entries.{Context, error_message}

-- One execution context. `stepped` says whether the interpreter ran and reported its exit;
-- `before` and `after` are the gas records around the inner calls.
pub record Frame : Type 0 where
  pub context_type : ContextType
  pub to : H160
  pub input : Bytes
  pub context : EvmContext
  pub transfer : Option Transfer
  pub target_gas : Option ℕ
  pub is_static : Bool
  pub scheme : CreateScheme
  pub before : List Snapshot
  pub after : List Snapshot
  pub stepped : Bool
  pub reason : ExitReason
  pub return_value : Bytes

mutual
  pub data CallTree : Type 0 where
    frame : Frame → Forest → CallTree
    -- address, target, balance
    destruct : H160 → H160 → U256 → CallTree

  pub data Forest : Type 0 where
    leaf : Forest
    grow : CallTree → Forest → Forest

-- The events of a tree.
abbrev pub opcode_of : ContextType → Bytes
opcode_of (ContextType.call CallType.call) = bytes "Call"
opcode_of (ContextType.call CallType.call_code) = bytes "CallCode"
opcode_of (ContextType.call CallType.delegate_call) = bytes "DelegateCall"
opcode_of (ContextType.call CallType.static_call) = bytes "StaticCall"
opcode_of ContextType.create = bytes "Create"

abbrev pub trap : ContextType → Event
trap t = Event.runtime (RuntimeEvent.step_result (err (Capture.trap (opcode_of t))) [])

abbrev pub enter_as : Frame → ContextType → Event
enter_as f (ContextType.call t) =
    Event.evm (EvmEvent.call f.to f.transfer f.input f.target_gas f.is_static f.context)
enter_as f ContextType.create =
    Event.evm
      (EvmEvent.create f.context.caller f.to f.scheme f.context.apparent_value f.input f.target_gas)

abbrev pub enter : Frame → Event
enter f = enter_as f f.context_type

abbrev pub meter : List Snapshot → List Event
meter [] = []
meter (s ∷ ss) = Event.gasometer (GasometerEvent.record_cost 0 s) ∷ meter ss

abbrev pub leave : Frame → List Event
leave f =
    let exit = Event.evm (EvmEvent.exit f.reason f.return_value) in
    if f.stepped
    then Event.runtime (RuntimeEvent.step_result (err (Capture.exit f.reason)) f.return_value)
      ∷ exit
      ∷ []
    else exit ∷ []

abbrev mutual
  pub tree_events : CallTree → List Event
  tree_events (frame f ts) =
      trap f.context_type
      ∷ enter f
      ∷ (meter f.before ++ (forest_events ts ++ (meter f.after ++ leave f)))
  tree_events (destruct a t b) = Event.evm (EvmEvent.suicide a t b) ∷ []

  pub forest_events : Forest → List Event
  forest_events leaf = []
  forest_events (grow t ts) = tree_events t ++ forest_events ts

-- The entries of a tree.
abbrev mutual
  pub size : CallTree → ℕ
  size (frame f ts) = suc (forest_size ts)
  size (destruct a t b) = 1

  pub forest_size : Forest → ℕ
  forest_size leaf = 0
  forest_size (grow t ts) = size t + forest_size ts

abbrev pub branches : Forest → ℕ
branches leaf = 0
branches (grow t ts) = suc (branches ts)

abbrev pub first_gas : Option ℕ → List Snapshot → Option ℕ
first_gas start [] = start
first_gas none (s ∷ ss) = some (gas s)
first_gas (some g) (s ∷ ss) = some g

abbrev pub last_gas : ℕ → List Snapshot → ℕ
last_gas g [] = g
last_gas g (s ∷ ss) = last_gas (gas s) ss

-- A call comes from the account of its parent, a creation from its caller.
abbrev pub origin : H160 → Frame → ContextType → H160
origin parent f (ContextType.call t) = parent
origin parent f ContextType.create = f.context.caller

-- A frame with index `n` and `k` children begun, with the gas records `ss`.
abbrev pub frame_context : ℕ → List ℕ → H160 → ℕ → List Snapshot → Frame → Context
frame_context n address from k ss f = record {
  entries_index = n;
  context_type = f.context_type;
  from = from;
  trace_address = address;
  subtraces = k;
  value = f.context.apparent_value;
  gas = last_gas 0 ss;
  start_gas = first_gas none ss;
  input = f.input;
  to = f.to;
}

-- The error that an exit reason is reported as, if it is one.
abbrev pub failure : ExitReason → Option Bytes
failure (ExitReason.succeed s) = none
failure (ExitReason.error e) = some (error_message e)
failure ExitReason.revert = some (bytes "execution reverted")
failure ExitReason.fatal = some []

-- A call has an output only if it ran to a return.
abbrev pub output_of : ExitReason → Bytes → Bytes
output_of (ExitReason.succeed ExitSucceed.returned) return_value = return_value
output_of (ExitReason.succeed ExitSucceed.unnamed) return_value = []
output_of (ExitReason.error e) return_value = []
output_of ExitReason.revert return_value = []
output_of ExitReason.fatal return_value = []

abbrev pub reported : Frame → ContextType → Option Bytes → BlockscoutCallInner
reported f (ContextType.call t) none =
    BlockscoutCallInner.call t f.to f.input (CallResult.output (output_of f.reason f.return_value))
reported f (ContextType.call t) (some e) =
    BlockscoutCallInner.call t f.to f.input (CallResult.error e)
reported f ContextType.create none =
    BlockscoutCallInner.create f.input (CreateResult.success f.to f.return_value)
reported f ContextType.create (some e) = BlockscoutCallInner.create f.input (CreateResult.error e)

-- The gas between the first record and the last.
abbrev pub spent_between : List Snapshot → ℕ
spent_between [] = 0
spent_between (s ∷ ss) = sub_u64 (gas s) (last_gas (gas s) ss)

-- The context with the index 0 pays for the transaction too.
abbrev pub frame_entry : ℕ → ℕ → List ℕ → H160 → ℕ → Frame → BlockscoutCall
frame_entry cost n address from k f =
    let used = spent_between (f.before ++ f.after) in
    record {
      from = from;
      trace_address = address;
      subtraces = k;
      value = f.context.apparent_value;
      gas = last_gas 0 (f.before ++ f.after);
      gas_used = if n == 0 then add_u64 used cost else used;
      inner = reported f f.context_type (failure f.reason);
    }

abbrev pub destruct_entry : List ℕ → H160 → H160 → U256 → BlockscoutCall
destruct_entry address from target balance = record {
  from = from;
  trace_address = address;
  subtraces = 0;
  value = 0;
  gas = 0;
  gas_used = 0;
  inner = BlockscoutCallInner.self_destruct balance target;
}

-- `n` is the index of the first entry; `parent` is the account of the parent.
abbrev mutual
  pub preorder : ℕ → ℕ → List ℕ → H160 → CallTree → BTreeMap BlockscoutCall
  preorder cost n address parent (frame f ts) =
      (n, frame_entry cost n address (origin parent f f.context_type) (branches ts) f)
      ∷ preorder_forest cost (suc n) address 0 f.to ts
  preorder cost n address parent (destruct a t b) = (n, destruct_entry address a t b) ∷ []

  pub preorder_forest : ℕ → ℕ → List ℕ → ℕ → H160 → Forest → BTreeMap BlockscoutCall
  preorder_forest cost n address k parent leaf = []
  preorder_forest cost n address k parent (grow t ts) =
      preorder cost n (address ++ k ∷ []) parent t
      ++ preorder_forest cost (n + size t) address (suc k) parent ts

-- The call type that the traps leave behind.
abbrev pub type_after : Option CallType → ContextType → Option CallType
type_after t (ContextType.call u) = some u
type_after t ContextType.create = t

abbrev mutual
  pub last_type : Option CallType → CallTree → Option CallType
  last_type t (frame f ts) = forest_type (type_after t f.context_type) ts
  last_type t (destruct a b c) = t

  pub forest_type : Option CallType → Forest → Option CallType
  forest_type t leaf = t
  forest_type t (grow u ts) = forest_type (last_type t u) ts
