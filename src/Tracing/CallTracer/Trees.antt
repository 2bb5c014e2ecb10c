-- ===== src/Tracing/CallTracer/Trees.antt =====
-- The call tracer's answer for the call trees of a block.
use mathlib.Core.List.{map-append}
use edgeware_node.Prelude.{
  ℕ, suc, ◌+◌, ◌^◌, ◌<◌, ◌≡◌, refl, ap, ◌∙◌, List, [], ◌∷◌, ◌++◌, map, reverse, some,
}
use edgeware_node.BTreeMap.{BTreeMap}
use edgeware_node.Tracing.Types.{H160, BlockscoutCall}
use edgeware_node.Tracing.CallList.{Listener, default, events}
use edgeware_node.Tracing.CallList.Tree.{
  CallTree, frame, destruct, Forest, leaf, grow, size, branches, origin, frame_entry,
  destruct_entry, preorder, preorder_forest,
}
use edgeware_node.Tracing.CallList.Blocks.{
  Transaction, call_tree, block_events, block_entries, block_size, transaction_entries,
}
use edgeware_node.Tracing.CallList.Block.{block_entries_lem}
use edgeware_node.Tracing.Formatters.{retain_filled}
use edgeware_node.Tracing.CallTracer.{
  CallTracerCall, call_of, nested, single_item, format_transactions, format_call_tracer,
  without_address,
}
use edgeware_node.Tracing.CallTracer.Levels.{
  Node, node, Nodes, end, next, nested_call, items, items_below, full,
}
use edgeware_node.Tracing.CallTracer.Whole.{nested-items}

-- The entries of a call tree, one inside the other.
abbrev mutual
  pub node_of : ℕ → ℕ → List ℕ → H160 → CallTree → Node
  node_of cost n address parent (frame f ts) =
      node (frame_entry cost n address (origin parent f f.context_type) (branches ts) f)
        (nodes_of cost (suc n) address 0 f.to ts)
  node_of cost n address parent (destruct a t b) = node (destruct_entry address a t b) end

  pub nodes_of : ℕ → ℕ → List ℕ → ℕ → H160 → Forest → Nodes
  nodes_of cost n address k parent leaf = end
  nodes_of cost n address k parent (grow t ts) =
      next (node_of cost n (address ++ k ∷ []) parent t)
        (nodes_of cost (n + size t) address (suc k) parent ts)

abbrev pub calls_of : BTreeMap BlockscoutCall → List CallTracerCall
calls_of m = map (λ e. call_of (e.1)) m

mutual
  preorder-items :
      (cost n : ℕ) (a : List ℕ) (parent : H160) (t : CallTree)
      → calls_of (preorder cost n a parent t) ≡ items a (node_of cost n a parent t)
  preorder-items cost n a parent (frame f ts) =
      ap (◌∷◌ (call_of (frame_entry cost n a (origin parent f f.context_type) (branches ts) f)))
        (preorder_forest-items cost (suc n) a 0 f.to ts)
  preorder-items cost n a parent (destruct c t b) = refl

  preorder_forest-items :
      (cost n : ℕ) (a : List ℕ) (k : ℕ) (parent : H160) (ts : Forest)
      → calls_of (preorder_forest cost n a k parent ts)
        ≡ items_below a k (nodes_of cost n a k parent ts)
  preorder_forest-items cost n a k parent leaf = refl
  preorder_forest-items cost n a k parent (grow t ts) =
      map-append (λ e. call_of (e.1)) (preorder cost n (a ++ k ∷ []) parent t) _
      ∙ rw
          (
            preorder-items cost n (a ++ k ∷ []) parent t,
            preorder_forest-items cost (n + size t) a (suc k) parent ts,
          )
          refl

abbrev pub transaction_node : ℕ → Transaction → Node
transaction_node n t = node_of t.cost n [] t.root.context.caller (call_tree t)

-- The nested call of each transaction.
abbrev pub block_calls : ℕ → List Transaction → List CallTracerCall
block_calls n [] = []
block_calls n (t ∷ ts) =
    nested_call (transaction_node n t) ∷ block_calls (n + size (call_tree t)) ts

single_item-root : (t : Node) → single_item (full 0 [] t) ≡ nested_call t ∷ []
unfolding single_item without_address
single_item-root (node b ns) = refl

format_transactions-cons :
    (m : BTreeMap BlockscoutCall) (ms : List (BTreeMap BlockscoutCall)) (r : List CallTracerCall)
    (x : CallTracerCall) (xs : List CallTracerCall)
    → nested (calls_of m) ≡ some r
    → single_item r ≡ x ∷ []
    → format_transactions ms ≡ some xs
    → format_transactions (m ∷ ms) ≡ some (x ∷ xs)
unfolding format_transactions
format_transactions-cons m ms r x xs done one rest = rw (done, rest, one, format_transactions)

pub format_call_tracer_of :
    (l : Listener) (ms : List (BTreeMap BlockscoutCall)) (x : CallTracerCall)
    (xs : List CallTracerCall)
    → reverse l.entries ≡ ms
    → format_transactions (retain_filled ms) ≡ some (x ∷ xs)
    → format_call_tracer l ≡ some (some (x ∷ xs))
unfolding format_call_tracer
format_call_tracer_of l ms x xs e done = rw (e, done, format_call_tracer)

pub format_transactions-block_entries :
    (n : ℕ) (ts : List Transaction)
    → format_transactions (retain_filled (block_entries n ts)) ≡ some (block_calls n ts)
unfolding format_transactions retain_filled
format_transactions-block_entries n [] = refl
format_transactions-block_entries n (t ∷ ts) =
    format_transactions-cons (transaction_entries n t)
      (retain_filled (block_entries (n + size (call_tree t)) ts)) (full 0 [] (transaction_node n t))
      (nested_call (transaction_node n t)) (block_calls (n + size (call_tree t)) ts)
      (ap nested (preorder-items t.cost n [] t.root.context.caller (call_tree t))
        ∙ nested-items (transaction_node n t))
      (single_item-root (transaction_node n t))
      (format_transactions-block_entries (n + size (call_tree t)) ts)

-- Fed with the events of the call trees of a block's transactions, at least one, the call tracer
-- answers one nested call for each transaction, in order: every context and every self-destruct
-- with its own entry's caller, gas, input and result, and inside it the calls that it made, in
-- the order in which it made them. It does not panic. This holds for blocks with fewer than 2^32
-- contexts.
pub format_call_tracer-block_events :
    (t : Transaction) (ts : List Transaction)
    → block_size (t ∷ ts) < 2 ^ 32
    → format_call_tracer (events (block_events (t ∷ ts)) default)
      ≡ some (some (block_calls 0 (t ∷ ts)))
format_call_tracer-block_events t ts room =
    format_call_tracer_of (events (block_events (t ∷ ts)) default) (block_entries 0 (t ∷ ts))
      (nested_call (transaction_node 0 t)) (block_calls (0 + size (call_tree t)) ts)
      (block_entries_lem (t ∷ ts) room) (format_transactions-block_entries 0 (t ∷ ts))
