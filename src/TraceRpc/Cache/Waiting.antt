-- ===== src/TraceRpc/Cache/Waiting.antt =====
-- Where a request for traces waits, and that it does not wait forever.
use edgeware_node.Prelude.{
  ℕ, ◌+◌, ◌-◌, ◌%◌, ◌^◌, ◌≤◌, ◌≡◌, refl, inl, inr, List, [], ◌∷◌, some, true, false, ◌&&◌, arith,
  ◌==◌, count, count-append, sym, subst, ap, Option-cases, Bool-cases, ==_iff, if◌then◌else◌,
}
use edgeware_node.BTreeMap
use edgeware_node.BTreeMap.{From, weight_of, get-insert, get-remove}
use edgeware_node.Tracing.Types.{H256}
use edgeware_node.TraceRpc.Errors.{Traces}
use edgeware_node.TraceRpc.Cache.{
  CacheTask, CacheBlock, CacheBlockState, pooled, cached, get_found, started_found, finished_found,
  Outcome, put_block, each_block, start_block, stop_block, expire_block, remove_block,
  request_start_batch, request_get_traces, request_stop_batch, blocking_started, blocking_finished,
  expired_batch,
}
use edgeware_node.TraceRpc.Cache.Loop.{
  Incoming, CacheLoop, start_batch, get_traces, stop_batch, started, finished, delay_over, step,
  pick,
}
use edgeware_node.TraceRpc.Cache.Replies.{waiters, weigh}

-- How often a channel waits for a block.
abbrev pub waits_at : ℕ → H256 → CacheTask → ℕ
waits_at x c s = weight_of (weigh x) (BTreeMap.get c s.cached_blocks)

-- How often an input asks on a channel for a block.
abbrev pub asked_for : ℕ → H256 → Incoming → ℕ
asked_for x c (start_batch sender blocks) = 0
asked_for x c (get_traces sender block) = if sender == x && block == c then 1 else 0
asked_for x c (stop_batch batch_id) = 0
asked_for x c (started block) = 0
asked_for x c (finished block result) = 0
asked_for x c (delay_over i) = 0

module _ (x : ℕ) (c a : H256) (s : CacheTask) where
  put-waits :
      (e : CacheBlock)
      → weigh x e ≤ waits_at x a s
      → waits_at x c (put_block a e s) ≤ waits_at x c s
  put-waits e h = elim (Bool-cases (a == c)) [
    | inl same ↦
        subst (λ k. waits_at x k (put_block a e s) ≤ waits_at x k s) ((==_iff a c).0 same)
          (rw (get-insert a a) (ground (arith, h)))
    | inr other ↦ rw (get-insert a c, other) (omega arith)
  ]

  remove-waits :
      waits_at x c (record s { cached_blocks = BTreeMap.remove a s.cached_blocks }) ≤ waits_at x c s
  remove-waits = elim (Bool-cases (a == c)) [
    | inl same ↦ rw (get-remove a c, same) (omega arith)
    | inr other ↦ rw (get-remove a c, other) (omega arith)
  ]

  weigh_at : (e : CacheBlock) → BTreeMap.get a s.cached_blocks ≡ some e → weigh x e ≡ waits_at x a s
  weigh_at e hit = ap (weight_of (weigh x)) (sym hit)

  start_block-waits : waits_at x c (start_block a s).0 ≤ waits_at x c s
  unfolding start_block
  start_block-waits = elim (Option-cases (BTreeMap.get a s.cached_blocks)) [
    | inl miss ↦ rw (miss, start_block) (put-waits _ (omega arith))
    | inr (e, hit) ↦ rw (hit, start_block) (put-waits _ (omega (arith, weigh_at e hit)))
  ]

  stop_block-waits : waits_at x c (stop_block a s).0 ≤ waits_at x c s
  unfolding stop_block remove_block
  stop_block-waits = elim (Option-cases (BTreeMap.get a s.cached_blocks)) [
    | inl miss ↦ rw (miss, stop_block) (omega arith)
    | inr (e, hit) ↦ rw (hit, stop_block) (ground (arith, remove-waits))
  ]

  expire_block-waits : waits_at x c (expire_block a s).0 ≤ waits_at x c s
  unfolding expire_block remove_block
  expire_block-waits = elim (Option-cases (BTreeMap.get a s.cached_blocks)) [
    | inl miss ↦ rw (miss, expire_block) (omega arith)
    | inr (e, hit) ↦
        rw (hit, expire_block)
          (ground (
            arith,
            remove-waits,
            put-waits
                (record e { active_batch_count = (e.active_batch_count + 2 ^ 64 - 1) % 2 ^ 64 })
                (omega (arith, weigh_at e hit)),
          ))
  ]

  started-waits : waits_at x c (blocking_started a s).0 ≤ waits_at x c s
  unfolding blocking_started
  started-waits = elim (Option-cases (BTreeMap.get a s.cached_blocks)) [
    | inl miss ↦ rw (miss, blocking_started) (omega arith)
    | inr (e, hit) ↦ rw (hit, blocking_started) (found e e.state hit refl)
  ]
    where
      found :
          (e : CacheBlock) (st : CacheBlockState)
          → BTreeMap.get a s.cached_blocks ≡ some e
          → e.state ≡ st
          → waits_at x c (started_found a (some e) s) ≤ waits_at x c s
      found e (pooled b ws u) hit is =
          rw (is, started_found)
            (put-waits _ (omega (arith, weigh_at e hit, ap (λ t. count x (waiters t)) is)))
      found e (cached t) hit is = rw (is, started_found) (omega arith)

  finished-waits : (r : Traces) → waits_at x c (blocking_finished a r s).0 ≤ waits_at x c s
  unfolding blocking_finished
  finished-waits r = elim (Option-cases (BTreeMap.get a s.cached_blocks)) [
    | inl miss ↦ rw (miss, blocking_finished) (omega arith)
    | inr (e, hit) ↦ rw (hit, blocking_finished) (found e e.state refl)
  ]
    where
      found :
          (e : CacheBlock) (st : CacheBlockState)
          → e.state ≡ st
          → waits_at x c (finished_found a r (some e) s).0 ≤ waits_at x c s
      found e (pooled b ws u) is = rw (is, finished_found) (put-waits _ (omega arith))
      found e (cached t) is = rw (is, finished_found) (omega arith)

  get_traces-waits :
      (sender : ℕ)
      → (sender == x) && (a == c) ≡ false
      → waits_at x c (request_get_traces sender a s).0 ≤ waits_at x c s
  unfolding request_get_traces
  get_traces-waits sender apart = elim (Option-cases (BTreeMap.get a s.cached_blocks)) [
    | inl miss ↦ rw (miss, request_get_traces) (omega arith)
    | inr (e, hit) ↦ rw (hit, request_get_traces) (found e e.state hit refl)
  ]
    where
      found :
          (e : CacheBlock) (st : CacheBlockState)
          → BTreeMap.get a s.cached_blocks ≡ some e
          → e.state ≡ st
          → waits_at x c (get_found sender a (some e) s).0 ≤ waits_at x c s
      found e (pooled b ws u) hit is =
          rw (is, get_found)
            (elim (Bool-cases (a == c)) [
              | inl same ↦ put-waits _ (
                  omega (
                    arith,
                    weigh_at e hit,
                    ap (λ t. count x (waiters t)) is,
                    count-append x ws (sender ∷ []),
                    not_sender same,
                  ))
              | inr other ↦ rw (get-insert a c, other) (omega arith)
            ])
        where
          not_sender : a == c ≡ true → count x (sender ∷ []) ≡ 0
          not_sender same = ground arith
      found e (cached t) hit is = rw (is, get_found) (omega arith)

each_block-waits :
    (x : ℕ) (c : H256) (body : H256 → CacheTask → Outcome)
    → ((a : H256) (s : CacheTask) → waits_at x c (body a s).0 ≤ waits_at x c s)
    → (blocks : List H256) (s : CacheTask)
    → waits_at x c (each_block body blocks s).0 ≤ waits_at x c s
unfolding each_block
each_block-waits x c body less [] s = omega arith
each_block-waits x c body less (a ∷ blocks) s =
    omega (arith, less a s, each_block-waits x c body less blocks (body a s).0)

-- No input but a request on the channel for the block makes it wait there.
pub step-waits :
    (x : ℕ) (c : H256) (e : Incoming) (l : CacheLoop)
    → asked_for x c e ≡ 0
    → waits_at x c (step e l).0.inner ≤ waits_at x c l.inner
unfolding step request_start_batch request_stop_batch expired_batch
step-waits x c (start_batch sender blocks) l h =
    each_block-waits x c start_block (start_block-waits x c) blocks _
step-waits x c (get_traces sender block) l h =
    get_traces-waits x c block l.inner sender (ground arith)
step-waits x c (stop_batch batch_id) l h =
    each_block-waits x c stop_block (stop_block-waits x c) _ l.inner
step-waits x c (started block) l h = started-waits x c block l.inner
step-waits x c (finished block result) l h = finished-waits x c block l.inner result
step-waits x c (delay_over i) l h = elim (Option-cases (pick i l.batch_expirations).0) [
  | inl missed ↦ rw (missed, step) (omega arith)
  | inr (batch_id, picked) ↦
      rw (picked, step)
        (each_block-waits x c expire_block (expire_block-waits x c) _
          (record (l.inner) { batches = BTreeMap.remove batch_id l.inner.batches }))
]
