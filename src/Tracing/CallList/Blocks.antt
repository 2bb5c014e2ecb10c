-- ===== src/Tracing/CallList/Blocks.antt =====
-- A block's transactions, described by themselves: how they were sent, their events, and the entries
-- that the listener is to hold at the end.
use edgeware_node.Prelude.{ℕ, ◌+◌, List, [], ◌∷◌, ◌++◌}
use edgeware_node.BTreeMap.{BTreeMap}
use edgeware_node.Tracing.Types.{H256, CallType, ContextType, BlockscoutCall}
use edgeware_node.Tracing.Events.{Snapshot, GasometerEvent, EvmEvent, Event}
use edgeware_node.Tracing.CallList.Tree.{
  Frame, CallTree, frame, Forest, enter_as, meter, leave, forest_events, size, preorder,
}

pub data Kind : Type 0 where
  call create : Kind
  create2 : H256 → Kind

-- A transaction: how it was sent, what it paid for its data, and its tree of calls. The context
-- type of the root is that of its kind.
pub record Transaction : Type 0 where
  pub kind : Kind
  pub root : Frame
  pub inner : Forest
  pub cost : ℕ
  pub snapshot : Snapshot
  pub gas_limit : ℕ

abbrev pub type_of : Kind → ContextType
type_of Kind.call = ContextType.call CallType.call
type_of Kind.create = ContextType.create
type_of (Kind.create2 salt) = ContextType.create

abbrev pub root_frame : Transaction → Frame
root_frame t = record t.root { context_type = type_of t.kind }

abbrev pub call_tree : Transaction → CallTree
call_tree t = frame (root_frame t) t.inner

abbrev pub transact_as : Transaction → Kind → EvmEvent
transact_as t Kind.call =
    EvmEvent.transact_call t.root.context.caller t.root.to t.root.context.apparent_value
      t.root.input t.gas_limit
transact_as t Kind.create =
    EvmEvent.transact_create t.root.context.caller t.root.context.apparent_value t.root.input
      t.gas_limit t.root.to
transact_as t (Kind.create2 salt) =
    EvmEvent.transact_create2 t.root.context.caller t.root.context.apparent_value t.root.input salt
      t.gas_limit t.root.to

abbrev pub body_events : Transaction → List Event
body_events t =
    meter t.root.before ++ (forest_events t.inner ++ (meter t.root.after ++ leave t.root))

-- The events of a transaction, in `EarlyTransact` mode.
abbrev pub transaction_events : Transaction → List Event
transaction_events t =
    Event.evm (transact_as t t.kind)
    ∷ Event.gasometer (GasometerEvent.record_transaction t.cost t.snapshot)
    ∷ enter_as t.root (type_of t.kind)
    ∷ body_events t

-- Before each transaction the runtime announces a new call list.
abbrev pub block_events : List Transaction → List Event
block_events [] = []
block_events (t ∷ ts) = Event.call_list_new ∷ (transaction_events t ++ block_events ts)

-- The entries of a transaction whose first entry has the index `n`.
abbrev pub transaction_entries : ℕ → Transaction → BTreeMap BlockscoutCall
transaction_entries n t = preorder t.cost n [] t.root.context.caller (call_tree t)

-- The numbering goes on from transaction to transaction.
abbrev pub block_entries : ℕ → List Transaction → List (BTreeMap BlockscoutCall)
block_entries n [] = []
block_entries n (t ∷ ts) = transaction_entries n t ∷ block_entries (n + size (call_tree t)) ts

abbrev pub block_size : List Transaction → ℕ
block_size [] = 0
block_size (t ∷ ts) = size (call_tree t) + block_size ts
