-- ===== src/Tracing/CallList/Settled.antt =====
-- `finish_transaction` changes nothing after transactions whose contexts have all ended.
use edgeware_node.Prelude.{
  ℕ, ◌+◌, ◌^◌, ◌<◌, ◌≡◌, refl, sym, ap, ◌∙◌, subst, List, [], ◌∷◌, reverse, Option, none, true,
  false, arith,
}
use edgeware_node.BTreeMap.{BTreeMap}
use edgeware_node.Tracing.Types.{CallType, BlockscoutCall}
use edgeware_node.Tracing.Entries.{TracingVersion}
use edgeware_node.Tracing.CallList.{Listener, default, event, events, finish_transaction}
use edgeware_node.Tracing.CallList.Tree.{size, forest_type}
use edgeware_node.Tracing.CallList.Steps.{running, events-append}
use edgeware_node.Tracing.CallList.Blocks.{
  Transaction, call_tree, transaction_events, block_events, transaction_entries, block_entries,
  block_size,
}
use edgeware_node.Tracing.CallList.Block.{transaction_lem, first_lem, block_entries_lem}

abbrev pub IsSettled : Listener → Type 0
IsSettled l = (l.context_stack ≡ []) × (l.record_transaction_event_only ≡ false)

pub finish_transaction-settled :
    (l : Listener) → IsSettled l → (finish_transaction l).entries ≡ l.entries
unfolding finish_transaction
finish_transaction-settled l (empty, unpaid) = rw (empty, unpaid)

later-IsSettled :
    (ts : List Transaction) (cost n : ℕ) (m : BTreeMap BlockscoutCall)
    (es : List (BTreeMap BlockscoutCall)) (ty : Option CallType)
    → n + block_size ts < 2 ^ 32
    → IsSettled (events (block_events ts) (running cost n [] m es ty false))
unfolding events event finish_transaction
later-IsSettled [] cost n m es ty fits = (refl, refl)
later-IsSettled (t ∷ ts) cost n m es ty fits =
    subst IsSettled
      (sym (
        events-append (transaction_events t) (block_events ts) _
        ∙ ap (events (block_events ts)) (
            transaction_lem t TracingVersion.early_transact cost n (m ∷ es) ty false
              (omega arith))))
      (later-IsSettled ts t.cost (n + size (call_tree t)) (transaction_entries n t) (m ∷ es)
        (forest_type ty t.inner) (omega arith))

block-IsSettled :
    (ts : List Transaction) → block_size ts < 2 ^ 32 → IsSettled (events (block_events ts) default)
unfolding events event
block-IsSettled [] fits = (refl, refl)
block-IsSettled (t ∷ ts) fits =
    subst IsSettled
      (sym (
        events-append (transaction_events t) (block_events ts) _
        ∙ ap (events (block_events ts)) (first_lem t false (omega arith))))
      (later-IsSettled ts t.cost (0 + size (call_tree t)) (transaction_entries 0 t) []
        (forest_type none t.inner) (omega arith))

pub finished_block_lem :
    (ts : List Transaction)
    → block_size ts < 2 ^ 32
    → reverse (finish_transaction (events (block_events ts) default)).entries ≡ block_entries 0 ts
finished_block_lem ts fits =
    ap reverse
      (finish_transaction-settled (events (block_events ts) default) (block-IsSettled ts fits))
    ∙ block_entries_lem ts fits

-- A transaction that is traced alone, with no call list announced.
pub finished_transaction_lem :
    (t : Transaction)
    → size (call_tree t) < 2 ^ 32
    → (finish_transaction (events (transaction_events t) default)).entries
      ≡ transaction_entries 0 t ∷ []
unfolding finish_transaction
finished_transaction_lem t fits = ap (λ l. (finish_transaction l).entries) (first_lem t true fits)
