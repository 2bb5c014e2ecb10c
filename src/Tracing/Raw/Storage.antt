-- ===== src/Tracing/Raw/Storage.antt =====
-- What a context that ends leaves in the storage cache of its parent.
use edgeware_node.Prelude.{
  ℕ, suc, ◌≡◌, refl, inl, inr, List, [], ◌∷◌, Option, none, some, false, arith, if◌then◌else◌, ◌==◌,
  Bool-cases, ◌&&◌,
}
use edgeware_node.Prelude.Text.{Bytes}
use edgeware_node.Prelude.Results.{err}
use edgeware_node.BTreeMap
use edgeware_node.BTreeMap.{BTreeMap, From, get_below, get-remove, get-insert}
use edgeware_node.Tracing.Types.{H256}
use edgeware_node.Tracing.Events.{ExitReason, Capture}
use edgeware_node.Tracing.Raw.State.{Listener, Context}
use edgeware_node.Tracing.Raw.Changes.{refresh, apply_changes, apply_change}
use edgeware_node.Tracing.Raw.{end_step, exit_top, pass_on, is_success, value_at_end}

abbrev pub or_else : Option H256 → H256 → H256
or_else none v = v
or_else (some w) v = w

-- A key of the cache, with the value of the storage if it has one.
abbrev pub updated : Option H256 → Option H256 → Option H256
updated none new = none
updated (some v) new = some (or_else new v)

get-refresh :
    (k n : ℕ) (storage cache : BTreeMap H256)
    → From n cache
    → BTreeMap.get k (refresh storage cache)
      ≡ updated (BTreeMap.get k cache) (BTreeMap.get k storage)
unfolding refresh BTreeMap.get
get-refresh k n storage [] s = refl
get-refresh k n storage ((j, v) ∷ cache) s = elim (Bool-cases (j == k)) [
  | inl here ↦ ground (arith, get_below (suc j) k cache)
  | inr other ↦
      ground
        (arith, get-refresh k (suc j) (BTreeMap.remove j storage) cache, get-remove j k storage)
]

module _ (l : Listener) (child parent : Context) (rest : List Context) (return_value : Bytes)
    (k : ℕ) (kept : l.disable_storage ≡ false) (stack : l.context_stack ≡ child ∷ parent ∷ rest)
    (sorted : From 0 parent.storage_cache) where
  -- With storage enabled, when the top context ends, which has no recorded changes of other
  -- addresses, its parent is on top. If the context ended well and the parent has the same address,
  -- each key that the parent's cache holds has the value in the context's cache, if there is one,
  -- and the other keys and values stay; in every other case the parent's cache is unchanged.
  pub end_step-storage :
      child.global_storage_changes ≡ []
      → (reason : ExitReason)
      → (after : Context) × ((end_step (err (Capture.exit reason)) return_value l).context_stack
          ≡ after ∷ rest)
        × (BTreeMap.get k after.storage_cache ≡ (
            if is_success reason && child.address == parent.address
            then updated (BTreeMap.get k parent.storage_cache) (BTreeMap.get k child.storage_cache)
            else BTreeMap.get k parent.storage_cache))
  unfolding end_step apply_changes exit_top pass_on value_at_end apply_change BTreeMap.insert
  end_step-storage bare (ExitReason.succeed done) = (
    apply_change child.address child.storage_cache parent,
    rw (stack, kept, bare, end_step) refl,
    ground (arith, get-refresh k 0 child.storage_cache parent.storage_cache sorted),
  )
  end_step-storage bare (ExitReason.error e) = (parent, rw (stack, kept, end_step) refl, refl)
  end_step-storage bare ExitReason.revert = (parent, rw (stack, kept, end_step) refl, refl)
  end_step-storage bare ExitReason.fatal = (parent, rw (stack, kept, end_step) refl, refl)
