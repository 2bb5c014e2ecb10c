-- ===== src/TraceRpc/Cache/Answers.antt =====
-- Which blocks stay in the cache.
use edgeware_node.Prelude.{
  ℕ, ◌≤◌, ◌≡◌, ◌≢◌, inl, inr, List, [], ◌∷◌, none, some, Bool, true, arith, ◌==◌, count,
  Option-cases, Bool-cases, ==_iff, subst,
}
use edgeware_node.BTreeMap
use edgeware_node.BTreeMap.{get-insert, get-remove}
use edgeware_node.Tracing.Types.{H256}
use edgeware_node.TraceRpc.Cache.{
  CacheTask, CacheBlock, pooled, each_block, start_block, stop_block, request_start_batch,
  request_stop_batch, blocking_started, remove_block,
}

abbrev pub pooled_block : ℕ → Bool → List ℕ → ℕ → CacheBlock
pooled_block n begun ws u = record { active_batch_count = n; state = pooled begun ws u }

-- A block whose tracing has begun stays in the cache whatever batch is stopped.
stop_block-keeps :
    (a b : H256) (s : CacheTask) (n : ℕ) (ws : List ℕ) (u : ℕ)
    → BTreeMap.get b s.cached_blocks ≡ some (pooled_block n true ws u)
    → BTreeMap.get b (stop_block a s).0.cached_blocks ≡ some (pooled_block n true ws u)
unfolding stop_block remove_block
stop_block-keeps a b s n ws u hit = elim (Option-cases (BTreeMap.get a s.cached_blocks)) [
  | inl miss ↦ rw (miss, stop_block) hit
  | inr (e, found) ↦ rw (found, stop_block) (ground (arith, get-remove a b s.cached_blocks))
]

stop_blocks-keep :
    (blocks : List H256) (b : H256) (s : CacheTask) (n : ℕ) (ws : List ℕ) (u : ℕ)
    → BTreeMap.get b s.cached_blocks ≡ some (pooled_block n true ws u)
    → BTreeMap.get b (each_block stop_block blocks s).0.cached_blocks
      ≡ some (pooled_block n true ws u)
unfolding each_block
stop_blocks-keep [] b s n ws u hit = hit
stop_blocks-keep (a ∷ blocks) b s n ws u hit =
    stop_blocks-keep blocks b (stop_block a s).0 n ws u (stop_block-keeps a b s n ws u hit)

-- After the message that the tracing of a pooled block has begun, whatever batch is stopped: the
-- block stays in the cache, begun, with its count, its waiting requests and its unqueue channel.
pub stop_batch-blocking_started :
    (batch_id : ℕ) (b : H256) (s : CacheTask) (n : ℕ) (begun : Bool) (ws : List ℕ) (u : ℕ)
    → BTreeMap.get b s.cached_blocks ≡ some (pooled_block n begun ws u)
    → BTreeMap.get b (request_stop_batch batch_id (blocking_started b s).0).0.cached_blocks
      ≡ some (pooled_block n true ws u)
unfolding request_stop_batch blocking_started
stop_batch-blocking_started batch_id b s n begun ws u hit =
    stop_blocks-keep _ b (blocking_started b s).0 n ws u
      (rw (hit, blocking_started) (rw (get-insert b b) (ground arith)))

start_block-keeps :
    (a b : H256) (s : CacheTask)
    → BTreeMap.get b s.cached_blocks ≢ none
    → BTreeMap.get b (start_block a s).0.cached_blocks ≢ none
unfolding start_block
start_block-keeps a b s there = elim (Option-cases (BTreeMap.get a s.cached_blocks)) [
  | inl miss ↦ rw (miss, start_block) (rw (get-insert a b) (ground arith))
  | inr (e, hit) ↦ rw (hit, start_block) (rw (get-insert a b) (ground arith))
]

start_block-there :
    (a : H256) (s : CacheTask) → BTreeMap.get a (start_block a s).0.cached_blocks ≢ none
unfolding start_block
start_block-there a s = elim (Option-cases (BTreeMap.get a s.cached_blocks)) [
  | inl miss ↦ rw (miss, start_block) (rw (get-insert a a) (ground arith))
  | inr (e, hit) ↦ rw (hit, start_block) (rw (get-insert a a) (ground arith))
]

pub start_blocks-keep :
    (blocks : List H256) (b : H256) (s : CacheTask)
    → BTreeMap.get b s.cached_blocks ≢ none
    → BTreeMap.get b (each_block start_block blocks s).0.cached_blocks ≢ none
unfolding each_block
start_blocks-keep [] b s there = there
start_blocks-keep (a ∷ blocks) b s there =
    start_blocks-keep blocks b (start_block a s).0 (start_block-keeps a b s there)

start_blocks-there :
    (blocks : List H256) (b : H256) (s : CacheTask)
    → 1 ≤ count b blocks
    → BTreeMap.get b (each_block start_block blocks s).0.cached_blocks ≢ none
unfolding each_block
start_blocks-there [] b s h = absurd (omega arith)
start_blocks-there (a ∷ blocks) b s h = elim (Bool-cases (a == b)) [
  | inl same ↦ start_blocks-keep blocks b (start_block a s).0 (
      subst (λ x. BTreeMap.get x (start_block a s).0.cached_blocks ≢ none) ((==_iff a b).0 same)
        (start_block-there a s))
  | inr other ↦ start_blocks-there blocks b (start_block a s).0 (ground arith)
]

-- After a batch has been started each block that it names is in the cache.
pub start_batch-caches :
    (sender : ℕ) (blocks : List H256) (b : H256) (s : CacheTask)
    → 1 ≤ count b blocks
    → BTreeMap.get b (request_start_batch sender blocks s).0.cached_blocks ≢ none
unfolding request_start_batch
start_batch-caches sender blocks b s h = start_blocks-there blocks b _ h
