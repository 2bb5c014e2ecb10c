-- ===== src/TraceRpc/Cache/Sorted.antt =====
-- The cached blocks of the cache task stay a map, with rising keys.
use edgeware_node.Prelude.{◌≡◌, refl, ◌∙◌, List, [], ◌∷◌, arith}
use edgeware_node.BTreeMap.{From, insert-From, remove-From}
use edgeware_node.Tracing.Types.{H256}
use edgeware_node.TraceRpc.Cache.{
  CacheTask, Outcome, each_block, start_block, stop_block, expire_block, remove_block,
}

-- A loop keeps what its body keeps.
pub each_block-keep {ℓ} :
    {B : Type ℓ} (f : CacheTask → B) (body : H256 → CacheTask → Outcome)
    → ((a : H256) (s : CacheTask) → f (body a s).0 ≡ f s)
    → (blocks : List H256) (s : CacheTask) → f (each_block body blocks s).0 ≡ f s
unfolding each_block
each_block-keep f body keep [] s = refl
each_block-keep f body keep (a ∷ blocks) s =
    each_block-keep f body keep blocks (body a s).0 ∙ keep a s

pub each_block-sorted :
    (body : H256 → CacheTask → Outcome)
    → ((a : H256) (s : CacheTask) → From 0 s.cached_blocks → From 0 (body a s).0.cached_blocks)
    → (blocks : List H256) (s : CacheTask) → From 0 s.cached_blocks
    → From 0 (each_block body blocks s).0.cached_blocks
unfolding each_block
each_block-sorted body keep [] s h = h
each_block-sorted body keep (a ∷ blocks) s h =
    each_block-sorted body keep blocks (body a s).0 (keep a s h)

module _ (a : H256) (s : CacheTask) where
  pub start_block-batches : (start_block a s).0.batches ≡ s.batches
  unfolding start_block
  start_block-batches = ground arith

  pub start_block-next : (start_block a s).0.next_batch_id ≡ s.next_batch_id
  unfolding start_block
  start_block-next = ground arith

  pub start_block-sorted : From 0 s.cached_blocks → From 0 (start_block a s).0.cached_blocks
  unfolding start_block
  start_block-sorted h = grind (arith, insert-From)

  pub stop_block-batches : (stop_block a s).0.batches ≡ s.batches
  unfolding stop_block remove_block
  stop_block-batches = ground arith

  pub stop_block-next : (stop_block a s).0.next_batch_id ≡ s.next_batch_id
  unfolding stop_block remove_block
  stop_block-next = ground arith

  pub stop_block-sorted : From 0 s.cached_blocks → From 0 (stop_block a s).0.cached_blocks
  unfolding stop_block remove_block
  stop_block-sorted h = grind (arith, remove-From)

  pub expire_block-batches : (expire_block a s).0.batches ≡ s.batches
  unfolding expire_block remove_block
  expire_block-batches = ground arith

  pub expire_block-next : (expire_block a s).0.next_batch_id ≡ s.next_batch_id
  unfolding expire_block remove_block
  expire_block-next = ground arith

  pub expire_block-sorted : From 0 s.cached_blocks → From 0 (expire_block a s).0.cached_blocks
  unfolding expire_block remove_block
  expire_block-sorted h = grind (arith, insert-From, remove-From)
