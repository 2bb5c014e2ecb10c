-- ===== src/Tracing/CallList/Transactions.antt =====
-- What the listener carries over from one transaction to the next.
use mathlib.Core.Path.{ap₂}
use mathlib.Core.Option.{some-injective}
use edgeware_node.Prelude.{
  ℕ, zero, suc, ◌+◌, ◌^◌, ◌<◌, ◌≡◌, refl, sym, ap, ◌∙◌, List, [], ◌∷◌, ◌++◌, reverse, Option, some,
  Bool, false, arith, ◌==◌, if◌then◌else◌,
}
use edgeware_node.Prelude.Text.{Bytes}
use edgeware_node.Prelude.Words.{add_u64}
use edgeware_node.BTreeMap
use edgeware_node.BTreeMap.{BTreeMap}
use edgeware_node.Tracing.Types.{H160, CallType, ContextType, BlockscoutCall}
use edgeware_node.Tracing.Events.{Event, EvmEvent, Transfer}
use edgeware_node.Tracing.Events.{Context as EvmContext}
use edgeware_node.Tracing.Entries.{Context}
use edgeware_node.Tracing.CallList.{
  Listener, default, event, events, evm_event, call_event, finish_transaction, finish_context,
  new_context, push_context, next_child, child_call_type, parent_to, insert_entry,
}
use edgeware_node.Tracing.CallList.Tree.{size, spent_between, branches, frame_entry, origin}
use edgeware_node.Tracing.CallList.Blocks.{
  Transaction, root_frame, call_tree, type_of, block_events, block_size, transaction_entries,
}
use edgeware_node.Tracing.CallList.Block.{block_entries_lem}

-- The gas that the interpreter of the root used.
abbrev pub spent : Transaction → ℕ
spent t = spent_between (t.root.before ++ t.root.after)

abbrev pub root_entry : ℕ → Transaction → BlockscoutCall
root_entry n t =
    frame_entry t.cost n [] (origin t.root.context.caller (root_frame t) (type_of t.kind))
      (branches t.inner) (root_frame t)

root_at :
    (n : ℕ) (t : Transaction) → BTreeMap.get n (transaction_entries n t) ≡ some (root_entry n t)
unfolding BTreeMap.get
root_at n t = ground arith

gas_used_at :
    (n k : ℕ) (t : Transaction) (m : BTreeMap BlockscoutCall) (a : BlockscoutCall)
    → m ≡ transaction_entries n t
    → k ≡ n
    → BTreeMap.get k m ≡ some a
    → a.gas_used ≡ (if n == 0 then add_u64 (spent t) t.cost else spent t)
gas_used_at n k t m a e same at =
    let found : some a ≡ some (root_entry n t) = sym at ∙ ap₂ BTreeMap.get same e ∙ root_at n t in
    ap (λ x. x.gas_used) (some-injective _ _ found)

nth_map : ℕ → List (BTreeMap BlockscoutCall) → BTreeMap BlockscoutCall
nth_map i [] = []
nth_map zero (m ∷ ms) = m
nth_map (suc i) (m ∷ ms) = nth_map i ms

-- In a block of two transactions with fewer than 2^32 contexts the cost of the first is added to the
-- gas that the entry of its root reports, while the entry of the root of the second reports the gas
-- that the interpreter used alone, whatever the cost of the second is.
pub second_transaction-cost :
    (t u : Transaction)
    → block_size (t ∷ u ∷ []) < 2 ^ 32
    → (first second : BTreeMap BlockscoutCall) (a b : BlockscoutCall)
    → reverse (events (block_events (t ∷ u ∷ [])) default).entries ≡ first ∷ second ∷ []
    → BTreeMap.get 0 first ≡ some a
    → BTreeMap.get (size (call_tree t)) second ≡ some b
    → (a.gas_used ≡ add_u64 (spent t) t.cost) × (b.gas_used ≡ spent u)
unfolding nth_map
second_transaction-cost t u fits first second a b held at_first at_second =
    let maps = sym held ∙ block_entries_lem (t ∷ u ∷ []) fits in
    let n = size (call_tree t) in
    (
      gas_used_at 0 0 t first a (ap (nth_map 0) maps) refl at_first,
      gas_used_at (0 + n) n u second b (ap (nth_map 1) maps) (omega arith) at_second
          ∙ (let later : (0 + n == 0) ≡ false = ground arith in rw later),
    )

finish-stack : (l : Listener) → (finish_transaction l).context_stack ≡ []
unfolding finish_transaction finish_context insert_entry
finish-stack l = ground arith

finish-call_type : (l : Listener) → (finish_transaction l).call_type ≡ l.call_type
unfolding finish_transaction finish_context insert_entry
finish-call_type l = ground arith

-- A new list of calls, of a transaction that is not the first.
next_list :
    (l : Listener)
    → l.call_list_first_transaction ≡ false
    → let m = event Event.call_list_new l in
      (m.skip_next_context ≡ false) × (m.context_stack ≡ []) × (m.call_type ≡ l.call_type)
unfolding event
next_list l later = (rw later, rw (later, finish-stack), rw (later, finish-call_type))

root_call :
    (l : Listener) (t : CallType) (code_address : H160) (input : Bytes) (is_static : Bool)
    (context : EvmContext)
    → l.skip_next_context ≡ false
    → l.context_stack ≡ []
    → l.call_type ≡ some t
    → (call_event code_address input is_static context l).context_stack
      ≡ new_context l
          (ContextType.call t)
          context.caller
          []
          context.apparent_value
          input
          code_address
        ∷ []
unfolding call_event push_context next_child child_call_type parent_to
root_call l t code_address input is_static context now bare set = rw (now, bare, set, call_event)

-- If a call type is set when a transaction that is not the first is announced, and the transaction
-- begins with a `Call` event, then its root context is given that type, whatever the call is.
pub root_call-stale :
    (l : Listener) (t : CallType) (code_address : H160) (transfer : Option Transfer) (input : Bytes)
    (target_gas : Option ℕ) (is_static : Bool) (context : EvmContext)
    → l.call_list_first_transaction ≡ false
    → l.call_type ≡ some t
    → (c : Context) × ((events
          (Event.call_list_new
            ∷ Event.evm (EvmEvent.call code_address transfer input target_gas is_static context)
            ∷ [])
          l).context_stack
        ≡ c ∷ [])
      × (c.context_type ≡ ContextType.call t)
      × (c.trace_address ≡ [])
unfolding events event evm_event
root_call-stale l t code_address transfer input target_gas is_static context later set =
    let m = event Event.call_list_new l in
    let (now, bare, kept) = next_list l later in
    (
      new_context m (ContextType.call t) context.caller [] context.apparent_value input
          code_address,
      root_call m t code_address input is_static context now bare (kept ∙ set),
      refl,
      refl,
    )
