-- ===== src/Tracing/Raw/Changes.antt =====
-- client/evm-tracing/src/listeners/raw.rs: how the storage changes of a context that has ended are
-- applied to its parent.
use edgeware_node.Prelude.{[], ◌∷◌, Option, none, some, ◌==◌, if◌then◌else◌}
use edgeware_node.BTreeMap
use edgeware_node.BTreeMap.{BTreeMap}
use edgeware_node.Tracing.Types.{H160, H256}
use edgeware_node.Tracing.Raw.State.{Context}

replaced : H256 → Option H256 → H256
replaced cached_value none = cached_value
replaced cached_value (some value) = value

-- The cache with the values of `storage` for the keys that it tracks; each value is used once.
unfoldable pub refresh : BTreeMap H256 → BTreeMap H256 → BTreeMap H256
unfolding replaced
refresh storage [] = []
refresh storage ((k, v) ∷ cache) =
    (k, replaced v (BTreeMap.get k storage)) ∷ refresh (BTreeMap.remove k storage) cache

-- `BTreeMap::append`
unfoldable pub append_map : BTreeMap H256 → BTreeMap H256 → BTreeMap H256
append_map base [] = base
append_map base ((k, v) ∷ more) = append_map (BTreeMap.insert k v base) more

unfoldable pub changes_or_new : Option (BTreeMap H256) → BTreeMap H256
changes_or_new none = []
changes_or_new (some changes) = changes

unfoldable pub apply_change : H160 → BTreeMap H256 → Context → Context
apply_change address storage parent =
    if parent.address == address
    then record parent { storage_cache = refresh storage parent.storage_cache }
    else record parent {
      global_storage_changes =
          BTreeMap.insert address
            (append_map (changes_or_new (BTreeMap.get address parent.global_storage_changes))
              storage)
            parent.global_storage_changes;
    }

unfoldable pub apply_changes : BTreeMap (BTreeMap H256) → Context → Context
unfolding apply_change changes_or_new
apply_changes [] parent = parent
apply_changes ((address, storage) ∷ more) parent =
    apply_changes more (apply_change address storage parent)
