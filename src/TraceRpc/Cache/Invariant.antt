-- ===== src/TraceRpc/Cache/Invariant.antt =====
-- The invariant of the cache task, kept by every handler.
use edgeware_node.Prelude.{
  ℕ, ◌+◌, ◌-◌, ◌^◌, ◌%◌, ◌≤◌, ◌<◌, ◌≡◌, refl, ap, inl, inr, List, [], ◌∷◌, arith, count, length,
  count-le-length, Option-cases,
}
use edgeware_node.BTreeMap
use edgeware_node.BTreeMap.{
  BTreeMap, From, Below, Below-le, total, total-insert, total-remove, total-le, insert-From,
  insert-Below, remove-From, remove-Below, get_above, weight_of, weight-le-total, empty_of_get,
}
use edgeware_node.Tracing.Types.{H256}
use edgeware_node.TraceRpc.Errors.{Traces}
use edgeware_node.TraceRpc.Cache.{
  CacheTask, each_block, start_block, stop_block, expire_block, request_start_batch,
  request_get_traces, request_stop_batch, blocking_started, blocking_finished, expired_batch,
}
use edgeware_node.TraceRpc.Cache.Loop.{
  Incoming, start_batch, get_traces, stop_batch, started, finished, delay_over,
}
use edgeware_node.TraceRpc.Cache.Counts.{
  Counted, Counted-le, start_blocks-Counted, stop_blocks-Counted, expire_blocks-Counted,
  get_traces-Counted, started-Counted, finished-Counted,
}
use edgeware_node.TraceRpc.Cache.Sorted.{
  each_block-keep, start_block-batches, start_block-next, stop_block-batches, stop_block-next,
  expire_block-batches, expire_block-next, each_block-sorted, start_block-sorted, stop_block-sorted,
  expire_block-sorted,
}

-- How often the batches that have not expired name a block.
abbrev pub uses : CacheTask → H256 → ℕ
uses s b = total (count b) s.batches

-- `spent` counts the batches and the blocks asked for so far.
pub record Inv (spent : ℕ) (s : CacheTask) : Type 0 where
  pub ids : From 0 s.batches
  pub fresh : Below s.next_batch_id s.batches
  pub id_spent : s.next_batch_id ≤ spent
  pub blocks_spent : total length s.batches ≤ spent
  pub sorted : From 0 s.cached_blocks
  pub counted : Counted s (uses s)

-- What one round spends.
abbrev pub cost : Incoming → ℕ
cost (start_batch sender blocks) = 1 + length blocks
cost (get_traces sender block) = 0
cost (stop_batch batch_id) = 0
cost (started block) = 0
cost (finished block result) = 0
cost (delay_over i) = 0

abbrev pub costs : List Incoming → ℕ
costs [] = 0
costs (e ∷ es) = cost e + costs es

uses-le : (s : CacheTask) (b : H256) → uses s b ≤ total length s.batches
uses-le s b = total-le (count b) length s.batches (λ blocks. count-le-length b blocks)

module _ (w : ℕ) (s : CacheTask) (v : Inv w s) where
  -- A new batch: its identifier is fresh, since fewer than 2^64 have been given.
  pub start_batch-Inv :
      (sender : ℕ) (blocks : List H256)
      → w + (1 + length blocks) < 2 ^ 64
      → Inv (w + (1 + length blocks)) (request_start_batch sender blocks s).0
  unfolding request_start_batch
  start_batch-Inv sender blocks room = record {
    ids = rw kept (insert-From 0 id blocks s.batches (omega arith) v.ids);
    fresh = rw (kept, next) (insert-Below (id + 1) id blocks s.batches (omega arith) below);
    id_spent = rw next (omega (arith, v.id_spent));
    blocks_spent = rw kept (omega (arith, more length, v.blocks_spent));
    sorted = each_block-sorted start_block start_block-sorted blocks inserted v.sorted;
    counted =
        Counted-le begun (λ b. uses s b + count b blocks) (λ b. total (count b) begun.batches)
          (λ b. rw kept (omega (arith, more (count b))))
          (start_blocks-Counted blocks inserted (uses s) v.counted
            (λ b. omega (arith, uses-le s b, v.blocks_spent, count-le-length b blocks)));
  }
    where
      id : ℕ
      id = s.next_batch_id

      inserted : CacheTask
      inserted = record s { batches = BTreeMap.insert id blocks s.batches }

      begun : CacheTask
      begun = (each_block start_block blocks inserted).0

      kept : begun.batches ≡ BTreeMap.insert id blocks s.batches
      kept = each_block-keep (λ x. x.batches) start_block start_block-batches blocks inserted

      next : (begun.next_batch_id + 1) % 2 ^ 64 ≡ id + 1
      next = omega (
        arith,
        each_block-keep (λ x. x.next_batch_id) start_block start_block-next blocks inserted,
        v.id_spent,
      )

      below : Below (id + 1) s.batches
      below = Below-le s.batches (omega arith) v.fresh

      more :
          (f : List H256 → ℕ)
          → total f (BTreeMap.insert id blocks s.batches) ≡ total f s.batches + f blocks
      more f = omega (
        arith,
        total-insert f 0 id blocks s.batches v.ids,
        ap (weight_of f) (get_above id id s.batches (omega arith) v.fresh),
      )

  -- What leaves the batches alone only has to keep the counts.
  same_batches-Inv :
      (t : CacheTask)
      → t.batches ≡ s.batches
      → t.next_batch_id ≡ s.next_batch_id
      → From 0 t.cached_blocks
      → Counted t (uses s)
      → Inv w t
  same_batches-Inv t kept next sorted counted = record {
    ids = rw kept v.ids;
    fresh = rw (kept, next) v.fresh;
    id_spent = rw next v.id_spent;
    blocks_spent = rw kept v.blocks_spent;
    sorted = sorted;
    counted = rw kept counted;
  }

  stop_blocks-Inv : (blocks : List H256) → Inv w (each_block stop_block blocks s).0
  stop_blocks-Inv blocks =
      same_batches-Inv (each_block stop_block blocks s).0
        (each_block-keep (λ x. x.batches) stop_block stop_block-batches blocks s)
        (each_block-keep (λ x. x.next_batch_id) stop_block stop_block-next blocks s)
        (each_block-sorted stop_block stop_block-sorted blocks s v.sorted)
        (stop_blocks-Counted blocks s (uses s) v.counted)

  pub stop_batch-Inv : (batch_id : ℕ) → Inv w (request_stop_batch batch_id s).0
  unfolding request_stop_batch
  stop_batch-Inv batch_id = stop_blocks-Inv _

  -- An expired batch: its blocks are counted down as often as it names them.
  expire_blocks-Inv :
      (batch_id : ℕ) (blocks : List H256)
      → w < 2 ^ 64
      → ((f : List H256 → ℕ)
          → f [] ≡ 0
          → total f (BTreeMap.remove batch_id s.batches) + f blocks ≡ total f s.batches)
      → Inv w
          (each_block expire_block blocks
            (record s { batches = BTreeMap.remove batch_id s.batches })).0
  expire_blocks-Inv batch_id blocks room split = record {
    ids = rw kept (remove-From 0 batch_id s.batches v.ids);
    fresh = rw (kept, next) (remove-Below s.next_batch_id batch_id s.batches v.fresh);
    id_spent = rw next v.id_spent;
    blocks_spent = rw kept (omega (arith, split length refl, v.blocks_spent));
    sorted = each_block-sorted expire_block expire_block-sorted blocks removed v.sorted;
    counted =
        Counted-le ended (λ b. uses s b - count b blocks) (λ b. total (count b) ended.batches)
          (λ b. rw kept (omega (arith, split (count b) refl)))
          (expire_blocks-Counted blocks removed (uses s) v.counted
            (λ b. omega (arith, uses-le s b, v.blocks_spent)));
  }
    where
      removed : CacheTask
      removed = record s { batches = BTreeMap.remove batch_id s.batches }

      ended : CacheTask
      ended = (each_block expire_block blocks removed).0

      kept : ended.batches ≡ BTreeMap.remove batch_id s.batches
      kept = each_block-keep (λ x. x.batches) expire_block expire_block-batches blocks removed

      next : ended.next_batch_id ≡ s.next_batch_id
      next = each_block-keep (λ x. x.next_batch_id) expire_block expire_block-next blocks removed

  pub expired_batch-Inv : w < 2 ^ 64 → (batch_id : ℕ) → Inv w (expired_batch batch_id s).0
  unfolding expired_batch
  expired_batch-Inv room batch_id = elim (Option-cases (BTreeMap.get batch_id s.batches)) [
    | inl miss ↦
        rw (miss, expired_batch)
          (expire_blocks-Inv batch_id [] room (λ f z.
            omega (arith, z, total-remove f 0 batch_id s.batches v.ids, ap (weight_of f) miss)))
    | inr (blocks, hit) ↦
        rw (hit, expired_batch)
          (expire_blocks-Inv batch_id blocks room
            (λ f z. omega (arith, total-remove f 0 batch_id s.batches v.ids, ap (weight_of f) hit)))
  ]

  pub get_traces-Inv : (sender : ℕ) (block : H256) → Inv w (request_get_traces sender block s).0
  unfolding request_get_traces
  get_traces-Inv sender block =
      same_batches-Inv (request_get_traces sender block s).0 (ground arith) (ground arith)
        (grind (arith, insert-From)) (get_traces-Counted block s (uses s) v.counted sender)

  pub started-Inv : (block : H256) → Inv w (blocking_started block s).0
  unfolding blocking_started
  started-Inv block =
      same_batches-Inv (blocking_started block s).0 (ground arith) (ground arith)
        (grind (arith, insert-From)) (started-Counted block s (uses s) v.counted)

  pub finished-Inv : (block : H256) (result : Traces) → Inv w (blocking_finished block result s).0
  unfolding blocking_finished
  finished-Inv block result =
      same_batches-Inv (blocking_finished block result s).0 (ground arith) (ground arith)
        (grind (arith, insert-From)) (finished-Counted block s (uses s) v.counted result)
