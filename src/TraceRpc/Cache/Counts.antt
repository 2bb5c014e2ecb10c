-- ===== src/TraceRpc/Cache/Counts.antt =====
-- How `active_batch_count` follows the batches: every cached block is counted at least once and at
-- most as often as the batches that have not expired name it.
use edgeware_node.Prelude.{
  ℕ, ◌+◌, ◌-◌, ◌^◌, ◌%◌, ◌≤◌, ◌<◌, inl, inr, List, [], ◌∷◌, Option, none, some, arith, ◌==◌,
  if◌then◌else◌, count, Option-cases,
}
use edgeware_node.BTreeMap
use edgeware_node.BTreeMap.{BTreeMap, get-insert, get-remove}
use edgeware_node.Tracing.Types.{H256}
use edgeware_node.TraceRpc.Errors.{Traces}
use edgeware_node.TraceRpc.Cache.{
  CacheTask, CacheBlock, each_block, start_block, stop_block, expire_block, request_get_traces,
  blocking_started, blocking_finished, remove_block,
}

abbrev pub CountOk : Option CacheBlock → ℕ → Type 0
CountOk none n = Unit {0}
CountOk (some e) n = (1 ≤ e.active_batch_count) × (e.active_batch_count ≤ n)

-- Every cached block has a count from one to `limit`.
abbrev pub Counted : CacheTask → (H256 → ℕ) → Type 0
Counted s limit = (b : H256) → CountOk (BTreeMap.get b s.cached_blocks) (limit b)

abbrev one_if : ℕ → ℕ → ℕ
one_if a b = if a == b then 1 else 0

module _ (a : H256) (s : CacheTask) (limit : H256 → ℕ) (h : Counted s limit) where
  start_block-Counted :
      limit a + 1 < 2 ^ 64 → Counted (start_block a s).0 (λ b. limit b + one_if a b)
  unfolding start_block
  start_block-Counted room b = elim (Option-cases (BTreeMap.get a s.cached_blocks)) [
    | inl miss ↦ rw (miss, start_block) (rw (get-insert a b) (ground (arith, h a, h b)))
    | inr (e, hit) ↦ rw (hit, start_block) (rw (get-insert a b) (ground (arith, h a, h b)))
  ]

  stop_block-Counted : Counted (stop_block a s).0 limit
  unfolding stop_block remove_block
  stop_block-Counted b = elim (Option-cases (BTreeMap.get a s.cached_blocks)) [
    | inl miss ↦ rw (miss, stop_block) (h b)
    | inr (e, hit) ↦ rw (hit, stop_block) (ground (arith, h b, get-remove a b s.cached_blocks))
  ]

  expire_block-Counted : limit a < 2 ^ 64 → Counted (expire_block a s).0 (λ b. limit b - one_if a b)
  unfolding expire_block remove_block
  expire_block-Counted room b = elim (Option-cases (BTreeMap.get a s.cached_blocks)) [
    | inl miss ↦ rw (miss, expire_block) (ground (arith, h a, h b))
    | inr (e, hit) ↦
        rw (hit, expire_block)
          (ground (
            arith,
            h a,
            h b,
            get-remove a b s.cached_blocks,
            get-insert a b
                (record e { active_batch_count = (e.active_batch_count + 2 ^ 64 - 1) % 2 ^ 64 })
                s.cached_blocks,
          ))
  ]

  pub get_traces-Counted : (sender : ℕ) → Counted (request_get_traces sender a s).0 limit
  unfolding request_get_traces
  get_traces-Counted sender b = elim (Option-cases (BTreeMap.get a s.cached_blocks)) [
    | inl miss ↦ rw (miss, request_get_traces) (h b)
    | inr (e, hit) ↦ rw (hit, request_get_traces) (grind (arith, get-insert, h a, h b))
  ]

  pub started-Counted : Counted (blocking_started a s).0 limit
  unfolding blocking_started
  started-Counted b = elim (Option-cases (BTreeMap.get a s.cached_blocks)) [
    | inl miss ↦ rw (miss, blocking_started) (h b)
    | inr (e, hit) ↦ rw (hit, blocking_started) (grind (arith, get-insert, h a, h b))
  ]

  pub finished-Counted : (r : Traces) → Counted (blocking_finished a r s).0 limit
  unfolding blocking_finished
  finished-Counted r b = elim (Option-cases (BTreeMap.get a s.cached_blocks)) [
    | inl miss ↦ rw (miss, blocking_finished) (h b)
    | inr (e, hit) ↦ rw (hit, blocking_finished) (grind (arith, get-insert, h a, h b))
  ]

pub Counted-le :
    (s : CacheTask) (f g : H256 → ℕ) → ((b : H256) → f b ≤ g b) → Counted s f → Counted s g
Counted-le s f g le h b = ground (arith, h b, le b)

pub start_blocks-Counted :
    (blocks : List H256) (s : CacheTask) (limit : H256 → ℕ)
    → Counted s limit
    → ((b : H256) → limit b + count b blocks < 2 ^ 64)
    → Counted (each_block start_block blocks s).0 (λ b. limit b + count b blocks)
unfolding each_block
start_blocks-Counted [] s limit h room = Counted-le s limit (λ b. limit b + 0) (λ b. omega arith) h
start_blocks-Counted (a ∷ blocks) s limit h room =
    Counted-le (each_block start_block blocks (start_block a s).0).0
      (λ b. limit b + one_if a b + count b blocks) (λ b. limit b + count b (a ∷ blocks))
      (λ b. omega arith)
      (start_blocks-Counted blocks (start_block a s).0 (λ b. limit b + one_if a b)
        (start_block-Counted a s limit h (ground (arith, room a))) (λ b. ground (arith, room b)))

pub stop_blocks-Counted :
    (blocks : List H256) (s : CacheTask) (limit : H256 → ℕ)
    → Counted s limit
    → Counted (each_block stop_block blocks s).0 limit
unfolding each_block
stop_blocks-Counted [] s limit h = h
stop_blocks-Counted (a ∷ blocks) s limit h =
    stop_blocks-Counted blocks (stop_block a s).0 limit (stop_block-Counted a s limit h)

pub expire_blocks-Counted :
    (blocks : List H256) (s : CacheTask) (limit : H256 → ℕ)
    → Counted s limit
    → ((b : H256) → limit b < 2 ^ 64)
    → Counted (each_block expire_block blocks s).0 (λ b. limit b - count b blocks)
unfolding each_block
expire_blocks-Counted [] s limit h room = Counted-le s limit (λ b. limit b - 0) (λ b. omega arith) h
expire_blocks-Counted (a ∷ blocks) s limit h room =
    Counted-le (each_block expire_block blocks (expire_block a s).0).0
      (λ b. limit b - one_if a b - count b blocks) (λ b. limit b - count b (a ∷ blocks))
      (λ b. omega arith)
      (expire_blocks-Counted blocks (expire_block a s).0 (λ b. limit b - one_if a b)
        (expire_block-Counted a s limit h (room a)) (λ b. ground (arith, room b)))
