-- ===== src/Tracing/CallList/Block.antt =====
-- The events of the transactions of a block, and the entries that the listener holds at its end.
use mathlib.Core.List.{append_assoc, reverse-cons, reverse-reverse}
use edgeware_node.Prelude.{
  ℕ, suc, ◌+◌, ◌^◌, ◌<◌, ◌≡◌, refl, sym, ap, ◌∙◌, inl, inr, List, [], ◌∷◌, ◌++◌, reverse, Option,
  none, Bool, true, false, arith,
}
use edgeware_node.BTreeMap.{BTreeMap}
use edgeware_node.Tracing.Types.{CallType, ContextType, BlockscoutCall}
use edgeware_node.Tracing.Events.{Snapshot, GasometerEvent, Event}
use edgeware_node.Tracing.Entries.{TracingVersion}
use edgeware_node.Tracing.CallList.{
  Listener, default, event, events, evm_event, gasometer_event, transact, call_event, create_event,
  finish_transaction,
}
use edgeware_node.Tracing.CallList.Tree.{
  Frame, CallTree, frame, destruct, Forest, leaf, grow, enter_as, meter, leave, tree_events,
  forest_events, size, branches, preorder_forest, forest_type, frame_context, first_gas, last_gas,
  origin,
}
use edgeware_node.Tracing.CallList.Steps.{running, metered, add_u32-suc, events-append}
use edgeware_node.Tracing.CallList.Replay.{body_lem, forest_lem, preorder_forest-From, branches-le}
use edgeware_node.Tracing.CallList.Fresh.{Twin, IsInner, AllInner, AllInner-append, events-Twin}
use edgeware_node.Tracing.CallList.Blocks.{
  Kind, Transaction, type_of, root_frame, call_tree, transact_as, body_events, transaction_events,
  block_events, transaction_entries, block_entries, block_size,
}

-- Between two transactions.
abbrev pub idle :
    TracingVersion → ℕ → ℕ → List (BTreeMap BlockscoutCall) → Option CallType → Bool → Listener
idle v cost n es t first = record {
  version = v;
  transaction_cost = cost;
  entries = es;
  entries_next_index = n;
  context_stack = [];
  call_type = t;
  skip_next_context = false;
  step_result_entry = none;
  call_list_first_transaction = first;
  record_transaction_event_only = false;
}

-- The root context is pushed once, by the first event.
start_lem :
    (t : Transaction) (k : Kind) (v : TracingVersion) (cost n : ℕ)
    (es : List (BTreeMap BlockscoutCall)) (m : BTreeMap BlockscoutCall) (ty : Option CallType)
    (first : Bool)
    → t.kind ≡ k
    → n + 1 < 2 ^ 32
    → event (enter_as t.root (type_of k)) (
        event
          (Event.gasometer (GasometerEvent.record_transaction t.cost t.snapshot))
          (event (Event.evm (transact_as t k)) (idle v cost n (m ∷ es) ty first)))
      ≡ running t.cost
          (suc n)
          (frame_context n [] t.root.context.caller 0 []
              (record t.root { context_type = type_of k })
            ∷ [])
          m
          es
          ty
          first
unfolding event evm_event gasometer_event transact call_event create_event
start_lem t Kind.call v cost n es m ty first e h = rw (add_u32-suc n h)
start_lem t Kind.create v cost n es m ty first e h = rw (add_u32-suc n h)
start_lem t (Kind.create2 salt) v cost n es m ty first e h = rw (add_u32-suc n h)

origin_root :
    (t : Transaction) (k : Kind)
    → origin t.root.context.caller t.root (type_of k) ≡ t.root.context.caller
origin_root t Kind.call = refl
origin_root t Kind.create = refl
origin_root t (Kind.create2 salt) = refl

module _ (t : Transaction) (v : TracingVersion) (cost n : ℕ) (es : List (BTreeMap BlockscoutCall))
    (ty : Option CallType) (first : Bool) (fits : n + size (call_tree t) < 2 ^ 32) where
  pub transaction_lem :
      events (transaction_events t) (idle v cost n ([] ∷ es) ty first)
      ≡ running t.cost
          (n + size (call_tree t))
          []
          (transaction_entries n t)
          es
          (forest_type ty t.inner)
          first
  unfolding events
  transaction_lem =
      let f = root_frame t in
      let caller = t.root.context.caller in
      let c1 =
        metered (first_gas none f.before) (last_gas 0 f.before)
          (frame_context n [] caller 0 [] f) in
      ap (events (body_events t)) (start_lem t t.kind v cost n es [] ty first refl (omega arith))
      ∙ body_lem t.cost es first n (n + size (call_tree t)) [] caller f t.inner [] []
          (preorder_forest t.cost (suc n) [] 0 f.to t.inner) ty (forest_type ty t.inner) tt
          (preorder_forest-From t.cost (suc n) [] 0 f.to t.inner)
          (forest_lem t.cost es first t.inner c1 [] (suc n) (n + size (call_tree t))
            (branches t.inner) [] ty tt fits (omega (arith, branches-le t.inner)) (omega arith)
            (omega arith))
      ∙ rw (origin_root t t.kind)

reverse_onto {ℓ} :
    {A : Type ℓ} (x : A) (xs ys : List A) → reverse (x ∷ xs) ++ ys ≡ reverse xs ++ x ∷ ys
reverse_onto x xs ys = rw (reverse-cons x xs) (append_assoc (reverse xs) (x ∷ []) ys)

-- The transactions after the first.
later_lem :
    (ts : List Transaction) (cost n : ℕ) (m : BTreeMap BlockscoutCall)
    (es : List (BTreeMap BlockscoutCall)) (ty : Option CallType)
    → n + block_size ts < 2 ^ 32
    → (events (block_events ts) (running cost n [] m es ty false)).entries
      ≡ reverse (block_entries n ts) ++ m ∷ es
unfolding events event finish_transaction
later_lem [] cost n m es ty fits = refl
later_lem (t ∷ ts) cost n m es ty fits =
    ap (λ l. l.entries)
      (events-append (transaction_events t) (block_events ts) _
        ∙ ap (events (block_events ts)) (
            transaction_lem t TracingVersion.early_transact cost n (m ∷ es) ty false (omega arith)))
    ∙ later_lem ts t.cost (n + size (call_tree t)) (transaction_entries n t) (m ∷ es)
        (forest_type ty t.inner) (omega arith)
    ∙ sym (
        reverse_onto (transaction_entries n t) (block_entries (n + size (call_tree t)) ts) (m ∷ es))

meter-AllInner : (ss : List Snapshot) → AllInner (meter ss)
meter-AllInner [] = tt
meter-AllInner (s ∷ ss) = (tt, meter-AllInner ss)

enter-IsInner : (f : Frame) (c : ContextType) → IsInner (enter_as f c)
enter-IsInner f (ContextType.call t) = tt
enter-IsInner f ContextType.create = tt

leave-AllInner : (f : Frame) (stepped : Bool) → f.stepped ≡ stepped → AllInner (leave f)
leave-AllInner f true e = rw e (tt, (tt, tt))
leave-AllInner f false e = rw e (tt, tt)

context-AllInner :
    (f : Frame) (ts : Forest)
    → AllInner (forest_events ts)
    → AllInner (meter f.before ++ (forest_events ts ++ (meter f.after ++ leave f)))
context-AllInner f ts inner = AllInner-append (meter f.before) _ (meter-AllInner f.before) (
    AllInner-append (forest_events ts) _ inner (
      AllInner-append (meter f.after) _ (meter-AllInner f.after) (leave-AllInner f f.stepped refl)))

mutual
  tree_events-AllInner : (t : CallTree) → AllInner (tree_events t)
  tree_events-AllInner (frame f ts) =
      (tt, (enter-IsInner f f.context_type, context-AllInner f ts (forest_events-AllInner ts)))
  tree_events-AllInner (destruct a b v) = (tt, tt)

  forest_events-AllInner : (ts : Forest) → AllInner (forest_events ts)
  forest_events-AllInner leaf = tt
  forest_events-AllInner (grow t ts) =
      AllInner-append (tree_events t) _ (tree_events-AllInner t) (forest_events-AllInner ts)

transact-IsInner : (t : Transaction) (k : Kind) → IsInner (Event.evm (transact_as t k))
transact-IsInner t k = tt

transaction-AllInner : (t : Transaction) → AllInner (transaction_events t)
transaction-AllInner t = (
  tt,
  (
    tt,
    (
      enter-IsInner t.root (type_of t.kind),
      context-AllInner t.root t.inner (forest_events-AllInner t.inner),
    ),
  ),
)

-- The first transaction starts with no map at all.
pub first_lem :
    (t : Transaction) (first : Bool)
    → size (call_tree t) < 2 ^ 32
    → events (transaction_events t) (idle TracingVersion.legacy 0 0 [] none first)
      ≡ running t.cost
          (0 + size (call_tree t))
          []
          (transaction_entries 0 t)
          []
          (forest_type none t.inner)
          first
first_lem t first fits =
    settle (events-Twin (transaction_events t) _ _ (transaction-AllInner t) (inr (refl, refl)))
  where
    replay :
        events (transaction_events t) (idle TracingVersion.legacy 0 0 ([] ∷ []) none first)
        ≡ running t.cost
            (0 + size (call_tree t))
            []
            (transaction_entries 0 t)
            []
            (forest_type none t.inner)
            first
    replay = transaction_lem t TracingVersion.legacy 0 0 [] none first (omega arith)

    settle :
        Twin
          (events (transaction_events t) (idle TracingVersion.legacy 0 0 [] none first))
          (events (transaction_events t) (idle TracingVersion.legacy 0 0 ([] ∷ []) none first))
        → events (transaction_events t) (idle TracingVersion.legacy 0 0 [] none first)
          ≡ running t.cost
              (0 + size (call_tree t))
              []
              (transaction_entries 0 t)
              []
              (forest_type none t.inner)
              first
    settle (inl same) = same ∙ replay
    settle (inr (none_yet, twin)) = absurd (cc (ap (λ l. l.entries) (sym replay ∙ twin)))

-- The listener turns the events of a block into one map for each transaction, in order, which holds
-- the entries of the transaction's call tree in preorder, under consecutive indices that go on from
-- transaction to transaction; every entry has its trace address, its number of children, its first
-- and its last gas, and the result of its context. This holds for blocks with fewer than 2^32
-- contexts.
pub block_entries_lem :
    (ts : List Transaction)
    → block_size ts < 2 ^ 32
    → reverse (events (block_events ts) default).entries ≡ block_entries 0 ts
unfolding events event
block_entries_lem [] fits = refl
block_entries_lem (t ∷ ts) fits =
    ap (λ l. reverse l.entries)
      (events-append (transaction_events t) (block_events ts) _
        ∙ ap (events (block_events ts)) (first_lem t false (omega arith)))
    ∙ ap reverse (
        later_lem ts t.cost (0 + size (call_tree t)) (transaction_entries 0 t) []
          (forest_type none t.inner) (omega arith)
        ∙ sym (reverse-cons (transaction_entries 0 t) (block_entries (0 + size (call_tree t)) ts)))
    ∙ reverse-reverse (block_entries 0 (t ∷ ts))
