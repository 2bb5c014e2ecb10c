-- ===== src/TraceRpc/Cache/Replies.antt =====
-- What becomes of the response channels of `GetTraces`: each waits in the cache, or has been used
-- or dropped, exactly once.
use mathlib.Core.List.{reverse-cons}
use edgeware_node.Prelude.{
  ℕ, ◌+◌, ◌%◌, ◌^◌, ◌-◌, ◌≡◌, refl, ap, inl, inr, List, [], ◌∷◌, ◌++◌, map, reverse, Option, some,
  true, false, arith, ◌==◌, if◌then◌else◌, count, count-append, Option-cases,
}
use edgeware_node.BTreeMap
use edgeware_node.BTreeMap.{BTreeMap, From, total, total-insert, total-remove, weight_of}
use edgeware_node.TraceRpc.Errors.{Traces}
use edgeware_node.TraceRpc.Cache.{
  CacheTask, CacheBlock, CacheBlockState, pooled, cached, Effect, send_batch_id, send_traces,
  drop_sender, spawn_tracing, drop_unqueue, drop_state, start_block, stop_block, expire_block,
  request_get_traces, blocking_started, blocking_finished, remove_block, get_found, started_found,
  finished_found,
}

-- The requests that wait for a block.
abbrev pub waiters : CacheBlockState → List ℕ
waiters (pooled begun requests unqueue) = requests
waiters (cached traces) = []

abbrev pub weigh : ℕ → CacheBlock → ℕ
weigh x e = count x (waiters e.state)

-- How often a channel waits in the cache.
abbrev pub waiting : ℕ → CacheTask → ℕ
waiting x s = total (weigh x) s.cached_blocks

-- How often the effects use a channel for traces, or drop it.
abbrev pub settled : ℕ → List Effect → ℕ
settled x [] = 0
settled x (send_batch_id y id ∷ es) = settled x es
settled x (send_traces y traces ∷ es) = (if y == x then 1 else 0) + settled x es
settled x (drop_sender y ∷ es) = (if y == x then 1 else 0) + settled x es
settled x (spawn_tracing block unqueue ∷ es) = settled x es
settled x (drop_unqueue unqueue ∷ es) = settled x es

pub settled-append :
    (x : ℕ) (es fs : List Effect) → settled x (es ++ fs) ≡ settled x es + settled x fs
settled-append x [] fs = omega arith
settled-append x (send_batch_id y id ∷ es) fs = settled-append x es fs
settled-append x (send_traces y t ∷ es) fs = omega (arith, settled-append x es fs)
settled-append x (drop_sender y ∷ es) fs = omega (arith, settled-append x es fs)
settled-append x (spawn_tracing b u ∷ es) fs = settled-append x es fs
settled-append x (drop_unqueue u ∷ es) fs = settled-append x es fs

settled_dropped : (x : ℕ) (ys : List ℕ) → settled x (map drop_sender ys) ≡ count x ys
settled_dropped x [] = refl
settled_dropped x (y ∷ ys) = omega (arith, settled_dropped x ys)

settled_sent :
    (x : ℕ) (r : Traces) (ys : List ℕ) → settled x (map (λ y. send_traces y r) ys) ≡ count x ys
settled_sent x r [] = refl
settled_sent x r (y ∷ ys) = omega (arith, settled_sent x r ys)

pub count-reverse : (x : ℕ) (ys : List ℕ) → count x (reverse ys) ≡ count x ys
count-reverse x [] = refl
count-reverse x (y ∷ ys) = omega (
  arith,
  ap (count x) (reverse-cons y ys),
  count-append x (reverse ys) (y ∷ []),
  count-reverse x ys,
)

settled-drop_state :
    (x : ℕ) (st : CacheBlockState) → settled x (drop_state st) ≡ count x (waiters st)
unfolding drop_state
settled-drop_state x (pooled b ws u) =
    omega (arith, settled-append x (map drop_sender ws) (drop_unqueue u ∷ []), settled_dropped x ws)
settled-drop_state x (cached t) = refl

module _ (x a : ℕ) (s : CacheTask) (sorted : From 0 s.cached_blocks) where
  put_lem :
      (e : CacheBlock)
      → total (weigh x) (BTreeMap.insert a e s.cached_blocks)
          + weight_of (weigh x) (BTreeMap.get a s.cached_blocks)
        ≡ waiting x s + weigh x e
  put_lem e = total-insert (weigh x) 0 a e s.cached_blocks sorted

  drop_lem :
      total (weigh x) (BTreeMap.remove a s.cached_blocks)
        + weight_of (weigh x) (BTreeMap.get a s.cached_blocks)
      ≡ waiting x s
  drop_lem = total-remove (weigh x) 0 a s.cached_blocks sorted

  weigh_at :
      {o : Option CacheBlock}
      → BTreeMap.get a s.cached_blocks ≡ o
      → weight_of (weigh x) (BTreeMap.get a s.cached_blocks) ≡ weight_of (weigh x) o
  weigh_at e = ap (weight_of (weigh x)) e

  pub start_block-settled :
      waiting x (start_block a s).0 + settled x (start_block a s).1 ≡ waiting x s
  unfolding start_block
  start_block-settled = elim (Option-cases (BTreeMap.get a s.cached_blocks)) [
    | inl miss ↦
        rw (miss, start_block)
          (omega (
            arith,
            weigh_at miss,
            put_lem (record { active_batch_count = 1; state = pooled false [] s.next_channel }),
          ))
    | inr (e, hit) ↦
        rw (hit, start_block)
          (omega (
            arith,
            weigh_at hit,
            put_lem (record e { active_batch_count = (e.active_batch_count + 1) % 2 ^ 64 }),
          ))
  ]

  removed_lem :
      (e : CacheBlock)
      → BTreeMap.get a s.cached_blocks ≡ some e
      → waiting x (remove_block a e s).0 + settled x (remove_block a e s).1 ≡ waiting x s
  unfolding remove_block
  removed_lem e hit = omega (arith, weigh_at hit, drop_lem, settled-drop_state x e.state)

  pub stop_block-settled : waiting x (stop_block a s).0 + settled x (stop_block a s).1 ≡ waiting x s
  unfolding stop_block
  stop_block-settled = elim (Option-cases (BTreeMap.get a s.cached_blocks)) [
    | inl miss ↦ rw (miss, stop_block) (omega arith)
    | inr (e, hit) ↦ rw (hit, stop_block) (ground (arith, removed_lem e hit))
  ]

  pub expire_block-settled :
      waiting x (expire_block a s).0 + settled x (expire_block a s).1 ≡ waiting x s
  unfolding expire_block
  expire_block-settled = elim (Option-cases (BTreeMap.get a s.cached_blocks)) [
    | inl miss ↦ rw (miss, expire_block) (omega arith)
    | inr (e, hit) ↦
        rw (hit, expire_block)
          (ground (
            arith,
            removed_lem e hit,
            weigh_at hit,
            put_lem
                (record e { active_batch_count = (e.active_batch_count + 2 ^ 64 - 1) % 2 ^ 64 }),
          ))
  ]

  pub get_traces-settled :
      (sender : ℕ)
      → waiting x (request_get_traces sender a s).0 + settled x (request_get_traces sender a s).1
        ≡ waiting x s + (if sender == x then 1 else 0)
  unfolding request_get_traces
  get_traces-settled sender = elim (Option-cases (BTreeMap.get a s.cached_blocks)) [
    | inl miss ↦ rw (miss, request_get_traces) (omega arith)
    | inr (e, hit) ↦ rw (hit, request_get_traces) (found e e.state hit refl)
  ]
    where
      found :
          (e : CacheBlock) (st : CacheBlockState)
          → BTreeMap.get a s.cached_blocks ≡ some e
          → e.state ≡ st
          → waiting x (get_found sender a (some e) s).0
              + settled x (get_found sender a (some e) s).1
            ≡ waiting x s + (if sender == x then 1 else 0)
      found e (pooled b ws u) hit is =
          rw (is, get_found)
            (omega (
              arith,
              weigh_at hit,
              ap (λ t. count x (waiters t)) is,
              put_lem (record e { state = pooled b (ws ++ sender ∷ []) u }),
              count-append x ws (sender ∷ []),
            ))
      found e (cached t) hit is = rw (is, get_found) (omega arith)

  pub started-settled :
      waiting x (blocking_started a s).0 + settled x (blocking_started a s).1 ≡ waiting x s
  unfolding blocking_started
  started-settled = elim (Option-cases (BTreeMap.get a s.cached_blocks)) [
    | inl miss ↦ rw (miss, blocking_started) (omega arith)
    | inr (e, hit) ↦ rw (hit, blocking_started) (found e e.state hit refl)
  ]
    where
      found :
          (e : CacheBlock) (st : CacheBlockState)
          → BTreeMap.get a s.cached_blocks ≡ some e
          → e.state ≡ st
          → waiting x (started_found a (some e) s) + 0 ≡ waiting x s
      found e (pooled b ws u) hit is =
          rw (is, started_found)
            (omega (
              arith,
              weigh_at hit,
              ap (λ t. count x (waiters t)) is,
              put_lem (record e { state = pooled true ws u }),
            ))
      found e (cached t) hit is = rw (is, started_found) (omega arith)

  pub finished-settled :
      (r : Traces)
      → waiting x (blocking_finished a r s).0 + settled x (blocking_finished a r s).1 ≡ waiting x s
  unfolding blocking_finished
  finished-settled r = elim (Option-cases (BTreeMap.get a s.cached_blocks)) [
    | inl miss ↦ rw (miss, blocking_finished) (omega arith)
    | inr (e, hit) ↦ rw (hit, blocking_finished) (found e e.state hit refl)
  ]
    where
      found :
          (e : CacheBlock) (st : CacheBlockState)
          → BTreeMap.get a s.cached_blocks ≡ some e
          → e.state ≡ st
          → waiting x (finished_found a r (some e) s).0
              + settled x (finished_found a r (some e) s).1
            ≡ waiting x s
      found e (pooled b ws u) hit is =
          rw (is, finished_found)
            (omega (
              arith,
              weigh_at hit,
              ap (λ t. count x (waiters t)) is,
              put_lem (record e { state = cached r }),
              settled-append x (map (λ y. send_traces y r) (reverse ws)) (drop_unqueue u ∷ []),
              settled_sent x r (reverse ws),
              count-reverse x ws,
            ))
      found e (cached t) hit is = rw (is, finished_found) (omega arith)
