-- ===== src/TraceRpc/Cache/Kept.antt =====
-- What has been traced stays: the result of a block's tracing is the answer to every request for
-- the block, until a batch expires.
use mathlib.Core.List.{List}
use edgeware_node.Prelude.{
  ℕ, ◌+◌, ◌%◌, ◌^◌, ◌≡◌, refl, ap, ◌∙◌, inl, inr, [], ◌∷◌, ◌++◌, map, reverse, some, Bool, true,
  false, arith, ◌==◌, Option-cases, Bool-cases, ==_iff,
}
use edgeware_node.BTreeMap
use edgeware_node.BTreeMap.{get-insert, get-remove}
use edgeware_node.Tracing.Types.{H256}
use edgeware_node.TraceRpc.Errors.{Traces}
use edgeware_node.TraceRpc.Cache.{
  CacheTask, CacheBlock, cached, Outcome, send_traces, drop_unqueue, each_block, start_block,
  stop_block, remove_block, request_start_batch, request_get_traces, request_stop_batch,
  blocking_started, blocking_finished,
}
use edgeware_node.TraceRpc.Cache.Loop.{
  Incoming, CacheLoop, start_batch, get_traces, stop_batch, started, finished, delay_over, step,
  run,
}
use edgeware_node.TraceRpc.Cache.Answers.{pooled_block}
use edgeware_node.TraceRpc.Requests.Honesty.{entry, entry-cases}

-- No batch expires.
abbrev pub NoneExpires : List Incoming → Type 0
NoneExpires [] = Unit {0}
NoneExpires (delay_over i ∷ es) = ⊥
NoneExpires (_ ∷ es) = NoneExpires es

==-same : (n : ℕ) → (n == n) ≡ true
==-same n = ground arith

module _ (b : H256) (r : Traces) where
  abbrev IsKept : CacheTask → Type 0
  IsKept s = (n : ℕ) × (BTreeMap.get b s.cached_blocks ≡ entry n (cached r))

  at_block :
      (a : H256) (s : CacheTask) (n : ℕ)
      → a == b ≡ true
      → BTreeMap.get b s.cached_blocks ≡ entry n (cached r)
      → BTreeMap.get a s.cached_blocks ≡ entry n (cached r)
  at_block a s n same hit = ap (λ k. BTreeMap.get k s.cached_blocks) ((==_iff a b).0 same) ∙ hit

  put-IsKept :
      (a : H256) (e : CacheBlock) (s : CacheTask)
      → a == b ≡ false
      → IsKept s
      → IsKept (record s { cached_blocks = BTreeMap.insert a e s.cached_blocks })
  put-IsKept a e s other (n, hit) = (n, get-insert a b e s.cached_blocks ∙ rw other hit)

  start_block-IsKept : (a : H256) (s : CacheTask) → IsKept s → IsKept (start_block a s).0
  unfolding start_block
  start_block-IsKept a s (n, hit) = elim (Bool-cases (a == b)) [
    | inl same ↦
        rw (at_block a s n same hit, start_block)
          ((n + 1) % 2 ^ 64, get-insert a b _ s.cached_blocks ∙ rw same refl)
    | inr other ↦ elim (Option-cases (BTreeMap.get a s.cached_blocks)) [
      | inl miss ↦ rw (miss, start_block) (put-IsKept a _ s other (n, hit))
      | inr (e, found) ↦ rw (found, start_block) (put-IsKept a _ s other (n, hit))
    ]
  ]

  stop_block-IsKept : (a : H256) (s : CacheTask) → IsKept s → IsKept (stop_block a s).0
  unfolding stop_block remove_block
  stop_block-IsKept a s (n, hit) = elim (Bool-cases (a == b)) [
    | inl same ↦ rw (at_block a s n same hit, stop_block) (n, hit)
    | inr other ↦ elim (Option-cases (BTreeMap.get a s.cached_blocks)) [
      | inl miss ↦ rw (miss, stop_block) (n, hit)
      | inr (e, found) ↦
          rw (found, stop_block) (n, ground (arith, get-remove a b s.cached_blocks, hit))
    ]
  ]

  each_block-IsKept :
      (body : H256 → CacheTask → Outcome)
      → ((a : H256) (s : CacheTask) → IsKept s → IsKept (body a s).0)
      → (bs : List H256) (s : CacheTask) → IsKept s
      → IsKept (each_block body bs s).0
  unfolding each_block
  each_block-IsKept body keep [] s kept = kept
  each_block-IsKept body keep (a ∷ bs) s kept =
      each_block-IsKept body keep bs (body a s).0 (keep a s kept)

  get_traces-IsKept :
      (sender : ℕ) (a : H256) (s : CacheTask) → IsKept s → IsKept (request_get_traces sender a s).0
  unfolding request_get_traces
  get_traces-IsKept sender a s (n, hit) = elim (Bool-cases (a == b)) [
    | inl same ↦ rw (at_block a s n same hit, request_get_traces) (n, hit)
    | inr other ↦ elim (entry-cases (BTreeMap.get a s.cached_blocks)) [
      | inl miss ↦ rw (miss, request_get_traces) (n, hit)
      | inr (inl (m, begun, ws, u, found)) ↦
          rw (found, request_get_traces) (put-IsKept a _ s other (n, hit))
      | inr (inr (m, traces, found)) ↦ rw (found, request_get_traces) (n, hit)
    ]
  ]

  started-IsKept : (a : H256) (s : CacheTask) → IsKept s → IsKept (blocking_started a s).0
  unfolding blocking_started
  started-IsKept a s (n, hit) = elim (Bool-cases (a == b)) [
    | inl same ↦ rw (at_block a s n same hit, blocking_started) (n, hit)
    | inr other ↦ elim (entry-cases (BTreeMap.get a s.cached_blocks)) [
      | inl miss ↦ rw (miss, blocking_started) (n, hit)
      | inr (inl (m, begun, ws, u, found)) ↦
          rw (found, blocking_started) (put-IsKept a _ s other (n, hit))
      | inr (inr (m, traces, found)) ↦ rw (found, blocking_started) (n, hit)
    ]
  ]

  finished-IsKept :
      (a : H256) (t : Traces) (s : CacheTask) → IsKept s → IsKept (blocking_finished a t s).0
  unfolding blocking_finished
  finished-IsKept a t s (n, hit) = elim (Bool-cases (a == b)) [
    | inl same ↦ rw (at_block a s n same hit, blocking_finished) (n, hit)
    | inr other ↦ elim (entry-cases (BTreeMap.get a s.cached_blocks)) [
      | inl miss ↦ rw (miss, blocking_finished) (n, hit)
      | inr (inl (m, begun, ws, u, found)) ↦
          rw (found, blocking_finished) (put-IsKept a _ s other (n, hit))
      | inr (inr (m, traces, found)) ↦ rw (found, blocking_finished) (n, hit)
    ]
  ]

  step-IsKept :
      (e : Incoming) (l : CacheLoop)
      → NoneExpires (e ∷ [])
      → IsKept l.inner
      → IsKept (step e l).0.inner
  unfolding step request_start_batch request_stop_batch
  step-IsKept (start_batch sender blocks) l q kept =
      each_block-IsKept start_block start_block-IsKept blocks
        (record (l.inner) {
          batches = BTreeMap.insert l.inner.next_batch_id blocks l.inner.batches;
        })
        kept
  step-IsKept (get_traces sender block) l q kept = get_traces-IsKept sender block l.inner kept
  step-IsKept (stop_batch batch_id) l q kept =
      each_block-IsKept stop_block stop_block-IsKept _ l.inner kept
  step-IsKept (started block) l q kept = started-IsKept block l.inner kept
  step-IsKept (finished block result) l q kept = finished-IsKept block result l.inner kept
  step-IsKept (delay_over i) l q kept = absurd q

  run-IsKept :
      (es : List Incoming) (l : CacheLoop)
      → NoneExpires es
      → IsKept l.inner
      → IsKept (run es l).0.inner
  unfolding run
  run-IsKept [] l q kept = kept
  run-IsKept (start_batch sender blocks ∷ es) l q kept =
      run-IsKept es _ q (step-IsKept (start_batch sender blocks) l tt kept)
  run-IsKept (get_traces sender block ∷ es) l q kept =
      run-IsKept es _ q (step-IsKept (get_traces sender block) l tt kept)
  run-IsKept (stop_batch batch_id ∷ es) l q kept =
      run-IsKept es _ q (step-IsKept (stop_batch batch_id) l tt kept)
  run-IsKept (started block ∷ es) l q kept =
      run-IsKept es _ q (step-IsKept (started block) l tt kept)
  run-IsKept (finished block result ∷ es) l q kept =
      run-IsKept es _ q (step-IsKept (finished block result) l tt kept)
  run-IsKept (delay_over i ∷ es) l q kept = absurd q

  kept-answer :
      (sender : ℕ) (l : CacheLoop)
      → IsKept l.inner
      → (step (get_traces sender b) l).1 ≡ send_traces sender r ∷ []
  unfolding step request_get_traces
  kept-answer sender l (n, hit) = rw (hit, request_get_traces) refl

  -- As the tracing of a pooled block ends, the requests that wait for the block are sent its result,
  -- the last one first, and the block's unqueue channel is dropped; and after whatever comes then,
  -- batches that are stopped and later reports about the block included, as long as no batch
  -- expires, a request for the block is sent that same result at once.
  pub finished-keeps :
      (l : CacheLoop) (n : ℕ) (begun : Bool) (ws : List ℕ) (u sender : ℕ) (es : List Incoming)
      → BTreeMap.get b l.inner.cached_blocks ≡ some (pooled_block n begun ws u)
      → NoneExpires es
      → let done = step (finished b r) l in
        (done.1 ≡ map (λ w. send_traces w r) (reverse ws) ++ drop_unqueue u ∷ [])
        × ((step (get_traces sender b) (run es done.0).0).1 ≡ send_traces sender r ∷ [])
  unfolding step blocking_finished
  finished-keeps l n begun ws u sender es hit quiet = (
    rw (hit, blocking_finished) refl,
    kept-answer sender (run es (step (finished b r) l).0).0 (
        run-IsKept es (step (finished b r) l).0 quiet (
          n,
          rw (hit, blocking_finished)
              (get-insert b b _ l.inner.cached_blocks ∙ rw (==-same b) refl),
        )),
  )
