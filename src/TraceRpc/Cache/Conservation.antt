-- ===== src/TraceRpc/Cache/Conservation.antt =====
-- Over whole runs of the cache task's loop no response channel is lost or used twice.
use edgeware_node.Prelude.{
  ℕ, ◌+◌, ◌≡◌, refl, inl, inr, List, [], ◌∷◌, arith, ◌==◌, if◌then◌else◌, Option-cases,
}
use edgeware_node.BTreeMap
use edgeware_node.BTreeMap.{From, insert-From}
use edgeware_node.Tracing.Types.{H256}
use edgeware_node.TraceRpc.Cache.{
  CacheTask, send_batch_id, Outcome, each_block, start_block, stop_block, expire_block,
  request_start_batch, request_get_traces, request_stop_batch, blocking_started, blocking_finished,
  expired_batch,
}
use edgeware_node.TraceRpc.Cache.Loop.{
  Incoming, CacheLoop, start_batch, get_traces, stop_batch, started, finished, delay_over, initial,
  step, run, pick,
}
use edgeware_node.TraceRpc.Cache.Sorted.{
  each_block-sorted, start_block-sorted, stop_block-sorted, expire_block-sorted,
}
use edgeware_node.TraceRpc.Cache.Replies.{
  waiting, settled, settled-append, start_block-settled, stop_block-settled, expire_block-settled,
  get_traces-settled, started-settled, finished-settled,
}

each_block-settled :
    (x : ℕ) (body : H256 → CacheTask → Outcome)
    → ((a : H256) (s : CacheTask) → From 0 s.cached_blocks → From 0 (body a s).0.cached_blocks)
    → ((a : H256) (s : CacheTask)
        → From 0 s.cached_blocks
        → waiting x (body a s).0 + settled x (body a s).1 ≡ waiting x s)
    → (blocks : List H256) (s : CacheTask) → From 0 s.cached_blocks
    → waiting x (each_block body blocks s).0 + settled x (each_block body blocks s).1 ≡ waiting x s
unfolding each_block
each_block-settled x body keep same [] s h = omega arith
each_block-settled x body keep same (a ∷ blocks) s h = omega (
  arith,
  same a s h,
  each_block-settled x body keep same blocks (body a s).0 (keep a s h),
  settled-append x (body a s).1 (each_block body blocks (body a s).0).1,
)

-- How often an input asks for traces on a channel.
abbrev pub asked : ℕ → Incoming → ℕ
asked x (start_batch sender blocks) = 0
asked x (get_traces sender block) = if sender == x then 1 else 0
asked x (stop_batch batch_id) = 0
asked x (started block) = 0
asked x (finished block result) = 0
asked x (delay_over i) = 0

abbrev pub all_asked : ℕ → List Incoming → ℕ
all_asked x [] = 0
all_asked x (e ∷ es) = asked x e + all_asked x es

module _ (x : ℕ) (s : CacheTask) (h : From 0 s.cached_blocks) where
  start_batch-settled :
      (sender : ℕ) (blocks : List H256)
      → waiting x (request_start_batch sender blocks s).0
          + settled x (request_start_batch sender blocks s).1
        ≡ waiting x s
  unfolding request_start_batch
  start_batch-settled sender blocks =
      let t = record s { batches = BTreeMap.insert s.next_batch_id blocks s.batches } in
      let begun = each_block start_block blocks t in
      omega (
        arith,
        settled-append x begun.1 (send_batch_id sender begun.0.next_batch_id ∷ []),
        each_block-settled x start_block start_block-sorted (start_block-settled x) blocks t h,
      )

  stop_batch-settled :
      (batch_id : ℕ)
      → waiting x (request_stop_batch batch_id s).0 + settled x (request_stop_batch batch_id s).1
        ≡ waiting x s
  unfolding request_stop_batch
  stop_batch-settled batch_id =
      each_block-settled x stop_block stop_block-sorted (stop_block-settled x) _ s h

  expired_batch-settled :
      (batch_id : ℕ)
      → waiting x (expired_batch batch_id s).0 + settled x (expired_batch batch_id s).1
        ≡ waiting x s
  unfolding expired_batch
  expired_batch-settled batch_id =
      each_block-settled x expire_block expire_block-sorted (expire_block-settled x) _
        (record s { batches = BTreeMap.remove batch_id s.batches }) h

step-settled :
    (x : ℕ) (e : Incoming) (l : CacheLoop)
    → From 0 l.inner.cached_blocks
    → waiting x (step e l).0.inner + settled x (step e l).1 ≡ waiting x l.inner + asked x e
unfolding step
step-settled x (start_batch sender blocks) l h =
    omega (arith, start_batch-settled x l.inner h sender blocks)
step-settled x (get_traces sender block) l h = get_traces-settled x block l.inner h sender
step-settled x (stop_batch batch_id) l h = omega (arith, stop_batch-settled x l.inner h batch_id)
step-settled x (started block) l h = omega (arith, started-settled x block l.inner h)
step-settled x (finished block result) l h =
    omega (arith, finished-settled x block l.inner h result)
step-settled x (delay_over i) l h = elim (Option-cases (pick i l.batch_expirations).0) [
  | inl missed ↦ rw (missed, step) (omega arith)
  | inr (batch_id, picked) ↦
      rw (picked, step) (omega (arith, expired_batch-settled x l.inner h batch_id))
]

pub step-sorted :
    (e : Incoming) (l : CacheLoop)
    → From 0 l.inner.cached_blocks
    → From 0 (step e l).0.inner.cached_blocks
unfolding step request_start_batch request_stop_batch expired_batch request_get_traces
    blocking_started blocking_finished
step-sorted (start_batch sender blocks) l h =
    each_block-sorted start_block start_block-sorted blocks _ h
step-sorted (get_traces sender block) l h = grind (arith, insert-From)
step-sorted (stop_batch batch_id) l h = each_block-sorted stop_block stop_block-sorted _ l.inner h
step-sorted (started block) l h = grind (arith, insert-From)
step-sorted (finished block result) l h = grind (arith, insert-From)
step-sorted (delay_over i) l h = elim (Option-cases (pick i l.batch_expirations).0) [
  | inl missed ↦ rw (missed, step) h
  | inr (batch_id, picked) ↦
      rw (picked, step)
        (each_block-sorted expire_block expire_block-sorted _
          (record (l.inner) { batches = BTreeMap.remove batch_id l.inner.batches }) h)
]

run-settled :
    (x : ℕ) (es : List Incoming) (l : CacheLoop)
    → From 0 l.inner.cached_blocks
    → waiting x (run es l).0.inner + settled x (run es l).1 ≡ waiting x l.inner + all_asked x es
unfolding run
run-settled x [] l h = refl
run-settled x (e ∷ es) l h = omega (
  arith,
  step-settled x e l h,
  run-settled x es (step e l).0 (step-sorted e l h),
  settled-append x (step e l).1 (run es (step e l).0).1,
)

-- In every run every response channel of a `GetTraces` request either waits in the cache, or has
-- been sent its traces or dropped, and that exactly as often as it was handed in: no request is
-- forgotten and none is answered twice.
pub run-conserves :
    (x : ℕ) (es : List Incoming)
    → waiting x (run es initial).0.inner + settled x (run es initial).1 ≡ all_asked x es
run-conserves x es = omega (arith, run-settled x es initial tt)
