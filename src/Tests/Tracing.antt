-- ===== src/Tests/Tracing.antt =====
-- A block of two transactions: a call that delegates to a library, which reverts, and then destroys
-- a contract; and a creation. The client's answers for that block.
use edgeware_node.Prelude.{ℕ, ◌≡◌, refl, List, [], ◌∷◌, reverse, none, some, true, false, arith}
use edgeware_node.Prelude.Text.{bytes}
use edgeware_node.Prelude.Words.{add_u64}
use edgeware_node.Prelude.Results.{ok}
use edgeware_node.BTreeMap
use edgeware_node.Tracing.Types.{CallType, ContextType}
use edgeware_node.Tracing.Events.{Snapshot, CreateScheme, ExitReason, ExitSucceed, Event, EvmEvent}
use edgeware_node.Tracing.Events.{Context as EvmContext}
use edgeware_node.Tracing.Entries.{Context}
use edgeware_node.Tracing.CallList.{Listener, default, events}
use edgeware_node.Tracing.CallList.Tree.{Frame, frame, destruct, leaf, grow}
use edgeware_node.Tracing.CallList.Blocks.{
  Kind, Transaction, block_events, block_entries, transaction_entries,
}
use edgeware_node.Tracing.CallList.Block.{block_entries_lem}
use edgeware_node.Tracing.CallList.Transactions.{
  spent, root_entry, second_transaction-cost, root_call-stale,
}
use edgeware_node.TraceRpc.BlockTraces.{Header, Chain, cache_block}
use edgeware_node.TraceRpc.BlockTraces.Replay.{expected, cache_block-block_events}

abbrev pub snapshot : ℕ → Snapshot
snapshot used = record { gas_limit = 90000; memory_gas = 3; used_gas = used; refunded_gas = 0 }

abbrev pub from_to : ℕ → ℕ → EvmContext
from_to caller address = record { address = address; caller = caller; apparent_value = 5 }

abbrev root_call : Frame
root_call = record {
  context_type = ContextType.call CallType.call;
  to = 20;
  input = bytes "transfer";
  context = from_to 10 20;
  transfer = none;
  target_gas = some 90000;
  is_static = false;
  scheme = CreateScheme.legacy 10;
  before = snapshot 100 ∷ snapshot 250 ∷ [];
  after = snapshot 700 ∷ [];
  stepped = true;
  reason = ExitReason.succeed ExitSucceed.returned;
  return_value = bytes "done";
}

abbrev delegated : Frame
delegated = record {
  context_type = ContextType.call CallType.delegate_call;
  to = 30;
  input = bytes "library";
  context = from_to 20 20;
  transfer = none;
  target_gas = none;
  is_static = false;
  scheme = CreateScheme.legacy 20;
  before = snapshot 20 ∷ [];
  after = snapshot 45 ∷ [];
  stepped = true;
  reason = ExitReason.revert;
  return_value = [];
}

abbrev root_create : Frame
root_create = record {
  context_type = ContextType.create;
  to = 40;
  input = bytes "init";
  context = from_to 10 40;
  transfer = none;
  target_gas = none;
  is_static = false;
  scheme = CreateScheme.legacy 10;
  before = snapshot 1 ∷ snapshot 60 ∷ [];
  after = [];
  stepped = false;
  reason = ExitReason.succeed ExitSucceed.returned;
  return_value = bytes "code";
}

abbrev pub calling : Transaction
calling = record {
  kind = Kind.call;
  root = root_call;
  inner = grow (frame delegated leaf) (grow (destruct 50 10 7) leaf);
  cost = 21000;
  snapshot = snapshot 0;
  gas_limit = 90000;
}

abbrev pub creating : Transaction
creating = record {
  kind = Kind.create2 77;
  root = root_create;
  inner = leaf;
  cost = 53000;
  snapshot = snapshot 0;
  gas_limit = 90000;
}

abbrev pub two : List Transaction
two = calling ∷ creating ∷ []

block_entries_lem_example :
    reverse (events (block_events two) default).entries ≡ block_entries 0 two
block_entries_lem_example = block_entries_lem two (omega arith)

abbrev pub header : Header
header = record { number = 12; parent_hash = 800 }

-- Extrinsics are numbers here.
abbrev chain : Chain ℕ
chain = record {
  header = λ h. ok (some header);
  schema = λ h.
      some
        (record { current_block = some 900; current_transaction_statuses = some (61 ∷ 62 ∷ []) });
  body = λ h. ok (some (1 ∷ 2 ∷ []));
  initialize_block = λ h head. ok tt;
  trace_block = λ h extrinsics transactions. (ok (ok tt), block_events two);
}

cache_block-block_events_example :
    cache_block chain 801 ≡ ok (expected 900 12 0 (61 ∷ 62 ∷ []) (block_entries 0 two))
cache_block-block_events_example =
    cache_block-block_events chain 801 header 900 (61 ∷ 62 ∷ []) (1 ∷ 2 ∷ []) two refl refl refl
      refl refl refl (omega arith)

second_transaction-cost_example :
    ((root_entry 0 calling).gas_used ≡ add_u64 (spent calling) 21000)
    × ((root_entry 3 creating).gas_used ≡ spent creating)
unfolding BTreeMap.get
second_transaction-cost_example =
    second_transaction-cost calling creating (omega arith) (transaction_entries 0 calling)
      (transaction_entries 3 creating) (root_entry 0 calling) (root_entry 3 creating)
      (block_entries_lem two (omega arith)) refl refl

-- Outside `EarlyTransact` mode, after a transaction with a delegate call.
abbrev stale : Listener
stale = record default {
  entries = [] ∷ [];
  call_type = some CallType.delegate_call;
  call_list_first_transaction = false;
}

root_call-stale_example :
    (c : Context) × ((events
        (Event.call_list_new
          ∷ Event.evm (EvmEvent.call 20 none (bytes "plain") none false (from_to 10 20))
          ∷ [])
        stale).context_stack
      ≡ c ∷ [])
    × (c.context_type ≡ ContextType.call CallType.delegate_call)
    × (c.trace_address ≡ [])
root_call-stale_example =
    root_call-stale stale CallType.delegate_call 20 none (bytes "plain") none false (from_to 10 20)
      refl refl
