-- ===== src/TraceRpc/Cache/Expiry.antt =====
-- A batch that was stopped early takes, as it expires, a block that another batch has pooled again.
use edgeware_node.Prelude.{
  ℕ, ◌+◌, ◌%◌, ◌^◌, ◌<◌, ◌≡◌, refl, ◌∙◌, [], ◌∷◌, none, some, true, false, arith, ◌==◌,
}
use edgeware_node.Prelude.Results.{err}
use edgeware_node.BTreeMap
use edgeware_node.BTreeMap.{get-insert, get-remove}
use edgeware_node.Tracing.Types.{H256}
use edgeware_node.TraceRpc.Errors.{not_batched}
use edgeware_node.TraceRpc.Cache.{
  CacheTask, CacheBlock, pooled, send_batch_id, send_traces, drop_unqueue, spawn_tracing,
  each_block, start_block, stop_block, expire_block, request_start_batch, request_get_traces,
  request_stop_batch, expired_batch, remove_block, drop_state,
}

==-same : (n : ℕ) → (n == n) ≡ true
==-same n = ground arith

apart : (n : ℕ) → n < 2 ^ 64 → ((n + 1) % 2 ^ 64 == n) ≡ false
apart n h = ground (arith, h)

apart_back : (n : ℕ) → n < 2 ^ 64 → (n == (n + 1) % 2 ^ 64) ≡ false
apart_back n h = ground (arith, h)

-- The entry of a block that is only just pooled.
abbrev fresh_entry : ℕ → CacheBlock
fresh_entry u = record { active_batch_count = 1; state = pooled false [] u }

module _ (b : H256) (s : CacheTask) where
  start_one :
      (x : ℕ)
      → BTreeMap.get b s.cached_blocks ≡ none
      → request_start_batch x (b ∷ []) s ≡ (
        record {
          cached_blocks = BTreeMap.insert b (fresh_entry s.next_channel) s.cached_blocks;
          batches = BTreeMap.insert s.next_batch_id (b ∷ []) s.batches;
          next_batch_id = (s.next_batch_id + 1) % 2 ^ 64;
          next_channel = s.next_channel + 1;
        },
        spawn_tracing b s.next_channel ∷ send_batch_id x s.next_batch_id ∷ [],
      )
  unfolding request_start_batch each_block start_block
  start_one x miss = rw (miss, start_block) refl

  stop_one :
      (i u : ℕ)
      → BTreeMap.get i s.batches ≡ some (b ∷ [])
      → BTreeMap.get b s.cached_blocks ≡ some (fresh_entry u)
      → request_stop_batch i s
        ≡ (record s { cached_blocks = BTreeMap.remove b s.cached_blocks }, drop_unqueue u ∷ [])
  unfolding request_stop_batch each_block stop_block remove_block drop_state
  stop_one i u batch hit = rw (batch, request_stop_batch) (rw (hit, stop_block) refl)

  expire_one :
      (i u : ℕ)
      → BTreeMap.get i s.batches ≡ some (b ∷ [])
      → BTreeMap.get b s.cached_blocks ≡ some (fresh_entry u)
      → expired_batch i s ≡ (
        record s {
          cached_blocks = BTreeMap.remove b s.cached_blocks;
          batches = BTreeMap.remove i s.batches;
        },
        drop_unqueue u ∷ [],
      )
  unfolding expired_batch each_block expire_block remove_block drop_state
  expire_one i u batch hit = rw (batch, expired_batch) (rw (hit, expire_block) refl)

  get_none :
      (q : ℕ)
      → BTreeMap.get b s.cached_blocks ≡ none
      → request_get_traces q b s ≡ (s, send_traces q (err (not_batched b)) ∷ [])
  unfolding request_get_traces
  get_none q miss = rw (miss, request_get_traces) refl

-- The states that the batches go through.
module _ (b : H256) (s : CacheTask) where
  abbrev first_started : CacheTask
  first_started = record {
    cached_blocks = BTreeMap.insert b (fresh_entry s.next_channel) s.cached_blocks;
    batches = BTreeMap.insert s.next_batch_id (b ∷ []) s.batches;
    next_batch_id = (s.next_batch_id + 1) % 2 ^ 64;
    next_channel = s.next_channel + 1;
  }

  abbrev first_stopped : CacheTask
  first_stopped = record first_started {
    cached_blocks = BTreeMap.remove b first_started.cached_blocks;
  }

  abbrev second_started : CacheTask
  second_started = record {
    cached_blocks =
        BTreeMap.insert b (fresh_entry first_stopped.next_channel) first_stopped.cached_blocks;
    batches = BTreeMap.insert first_stopped.next_batch_id (b ∷ []) first_stopped.batches;
    next_batch_id = (first_stopped.next_batch_id + 1) % 2 ^ 64;
    next_channel = first_stopped.next_channel + 1;
  }

  abbrev first_expired : CacheTask
  first_expired = record second_started {
    cached_blocks = BTreeMap.remove b second_started.cached_blocks;
    batches = BTreeMap.remove s.next_batch_id second_started.batches;
  }

  stopped_lem :
      request_stop_batch s.next_batch_id first_started
      ≡ (first_stopped, drop_unqueue s.next_channel ∷ [])
  stopped_lem =
      stop_one b first_started s.next_batch_id s.next_channel
        (get-insert s.next_batch_id s.next_batch_id (b ∷ []) s.batches
          ∙ rw (==-same s.next_batch_id) refl)
        (get-insert b b _ s.cached_blocks ∙ rw (==-same b) refl)

  gone : (c : CacheTask) → BTreeMap.get b (BTreeMap.remove b c.cached_blocks) ≡ none
  gone c = get-remove b b c.cached_blocks ∙ rw (==-same b) refl

  expired_lem :
      s.next_batch_id < 2 ^ 64
      → expired_batch s.next_batch_id second_started
        ≡ (first_expired, drop_unqueue (s.next_channel + 1) ∷ [])
  expired_lem small =
      expire_one b second_started s.next_batch_id (s.next_channel + 1)
        (get-insert _ s.next_batch_id (b ∷ []) first_stopped.batches
          ∙ rw (apart s.next_batch_id small) (
              get-insert s.next_batch_id s.next_batch_id (b ∷ []) s.batches
              ∙ rw (==-same s.next_batch_id) refl))
        (get-insert b b _ first_stopped.cached_blocks ∙ rw (==-same b) refl)

  second_kept :
      s.next_batch_id < 2 ^ 64
      → BTreeMap.get ((s.next_batch_id + 1) % 2 ^ 64) first_expired.batches ≡ some (b ∷ [])
  second_kept small =
      get-remove s.next_batch_id ((s.next_batch_id + 1) % 2 ^ 64) second_started.batches
      ∙ rw (apart_back s.next_batch_id small) (
          get-insert ((s.next_batch_id + 1) % 2 ^ 64) ((s.next_batch_id + 1) % 2 ^ 64) (b ∷ [])
            first_stopped.batches
          ∙ rw (==-same ((s.next_batch_id + 1) % 2 ^ 64)) refl)

-- In any state in which a block is not cached: a batch of that block alone is started, and stopped
-- before the tracing begins; a second batch of the block is started; and then the delay of the first
-- one ends. That takes the block from the cache and cancels the tracing of the second batch, which
-- is still there, and a request for the block is told that it was not batched.
pub expired_batch-takes_block :
    (b : H256) (x y q : ℕ) (s : CacheTask)
    → BTreeMap.get b s.cached_blocks ≡ none
    → s.next_batch_id < 2 ^ 64
    → let id = s.next_batch_id in
      let stopped = (request_stop_batch id (request_start_batch x (b ∷ []) s).0).0 in
      let again = request_start_batch y (b ∷ []) stopped in
      let expired = expired_batch id again.0 in
      (BTreeMap.get ((id + 1) % 2 ^ 64) expired.0.batches ≡ some (b ∷ []))
      × (expired.1 ≡ drop_unqueue (s.next_channel + 1) ∷ [])
      × (request_get_traces q b expired.0 ≡ (expired.0, send_traces q (err (not_batched b)) ∷ []))
expired_batch-takes_block b x y q s miss small =
    rw
      (
        start_one b s x miss,
        stopped_lem b s,
        start_one b (first_stopped b s) y (gone b s (first_started b s)),
        expired_lem b s small,
        get_none b (first_expired b s) q (gone b s (second_started b s)),
      )
      (second_kept b s small, refl, refl)
