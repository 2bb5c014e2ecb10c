-- ===== src/TraceRpc/Cache/Answered.antt =====
-- A request for traces does not wait forever: the end of the tracing of its block, at the latest,
-- settles it, whatever else the cache task is told in between.
use edgeware_node.Prelude.{
  ℕ, suc, ◌+◌, ◌≤◌, ◌≡◌, refl, ◌∙◌, ap, subst, inl, inr, List, [], ◌∷◌, ◌++◌, some, arith, ◌==◌,
  Option-cases, Bool-cases, ==_iff, count,
}
use edgeware_node.BTreeMap
use edgeware_node.BTreeMap.{BTreeMap, From, total, weight_of, get-insert, get_below}
use edgeware_node.Tracing.Types.{H256}
use edgeware_node.TraceRpc.Errors.{Traces}
use edgeware_node.TraceRpc.Cache.{
  CacheTask, CacheBlock, CacheBlockState, pooled, cached, blocking_finished, finished_found,
}
use edgeware_node.TraceRpc.Cache.Loop.{
  Incoming, CacheLoop, get_traces, finished, initial, step, run,
}
use edgeware_node.TraceRpc.Cache.Replies.{waiters, weigh, waiting, settled}
use edgeware_node.TraceRpc.Cache.Conservation.{asked, all_asked, step-sorted, run-conserves}
use edgeware_node.TraceRpc.Cache.Waiting.{waits_at, asked_for, step-waits}

-- A map whose values weigh nothing at any key weighs nothing.
total_zero :
    {V : Type 0} (f : V → ℕ) (n : ℕ) (m : BTreeMap V)
    → From n m
    → ((k : ℕ) → weight_of f (BTreeMap.get k m) ≡ 0)
    → total f m ≡ 0
unfolding BTreeMap.get
total_zero f n [] sorted none_at = refl
total_zero f n ((k, v) ∷ m) sorted none_at =
    omega (arith, total_zero f (suc k) m sorted.1 rest, head)
  where
    rest : (j : ℕ) → weight_of f (BTreeMap.get j m) ≡ 0
    rest j = elim (Bool-cases (k == j)) [
      | inl same ↦
          ap (weight_of f) (get_below (suc k) j m (omega (arith, (==_iff k j).0 same)) (sorted.1))
      | inr other ↦ ground (arith, none_at j)
    ]

    head : f v ≡ 0
    head = ground (arith, none_at k)

pub asked_for-asked : (x : ℕ) (c : H256) (e : Incoming) → asked_for x c e ≤ asked x e
asked_for-asked x c e = ground arith

pub run-waits :
    (x : ℕ) (c : H256) (es : List Incoming) (l : CacheLoop)
    → all_asked x es ≡ 0
    → waits_at x c (run es l).0.inner ≤ waits_at x c l.inner
unfolding run
run-waits x c [] l h = omega arith
run-waits x c (e ∷ es) l h = omega (
  arith,
  step-waits x c e l (omega (arith, asked_for-asked x c e)),
  run-waits x c es (step e l).0 (omega arith),
)

run-append :
    (es fs : List Incoming) (l : CacheLoop) → (run (es ++ fs) l).0 ≡ (run fs (run es l).0).0
unfolding run
run-append [] fs l = refl
run-append (e ∷ es) fs l = run-append es fs (step e l).0

run-sorted :
    (es : List Incoming) (l : CacheLoop)
    → From 0 l.inner.cached_blocks
    → From 0 (run es l).0.inner.cached_blocks
unfolding run
run-sorted [] l h = h
run-sorted (e ∷ es) l h = run-sorted es (step e l).0 (step-sorted e l h)

all_asked-append :
    (x : ℕ) (es fs : List Incoming) → all_asked x (es ++ fs) ≡ all_asked x es + all_asked x fs
all_asked-append x [] fs = omega arith
all_asked-append x (e ∷ es) fs = omega (arith, all_asked-append x es fs)

-- After the tracing of a block nothing waits for it.
pub finished-clears :
    (x : ℕ) (b : H256) (r : Traces) (s : CacheTask) → waits_at x b (blocking_finished b r s).0 ≡ 0
unfolding blocking_finished
finished-clears x b r s = elim (Option-cases (BTreeMap.get b s.cached_blocks)) [
  | inl miss ↦ rw (miss, blocking_finished) (ap (weight_of (weigh x)) miss)
  | inr (e, hit) ↦ rw (hit, blocking_finished) (found e e.state hit refl)
]
  where
    found :
        (e : CacheBlock) (st : CacheBlockState)
        → BTreeMap.get b s.cached_blocks ≡ some e
        → e.state ≡ st
        → waits_at x b (finished_found b r (some e) s).0 ≡ 0
    found e (pooled begun ws u) hit is =
        rw (is, finished_found) (rw (get-insert b b) (ground arith))
    found e (cached t) hit is =
        rw (is, finished_found) (ap (weight_of (weigh x)) hit ∙ ap (λ t. count x (waiters t)) is)

module _ (x : ℕ) (b : H256) (r : Traces) (before between : List Incoming) where
  abbrev requested : List Incoming
  requested = before ++ get_traces x b ∷ (between ++ finished b r ∷ [])

  -- Where the loop stands as the request comes, after it, and as the tracing ends.
  abbrev asking : CacheLoop
  asking = (run before initial).0

  abbrev asking_after : CacheLoop
  asking_after = (step (get_traces x b) asking).0

  abbrev ending : CacheLoop
  ending = (run between asking_after).0

  requested-ends : (run requested initial).0 ≡ (step (finished b r) ending).0
  unfolding run
  requested-ends =
      run-append before (get_traces x b ∷ (between ++ finished b r ∷ [])) initial
      ∙ run-append between (finished b r ∷ []) asking_after

  cleared : waits_at x b (step (finished b r) ending).0.inner ≡ 0
  unfolding step
  cleared = finished-clears x b r ending.inner

  nowhere :
      all_asked x before ≡ 0
      → all_asked x between ≡ 0
      → (c : H256) → waits_at x c (step (finished b r) ending).0.inner ≡ 0
  unfolding BTreeMap.get
  nowhere fresh fresh' c = elim (Bool-cases (b == c)) [
    | inl same ↦
        subst (λ k. waits_at x k (step (finished b r) ending).0.inner ≡ 0) ((==_iff b c).0 same)
          cleared
    | inr other ↦ omega (
      arith,
      run-waits x c before initial fresh,
      step-waits x c (get_traces x b) asking (ground (arith, other)),
      run-waits x c between asking_after fresh',
      step-waits x c (finished b r) ending refl,
    )
  ]

  nothing_waits :
      all_asked x before ≡ 0
      → all_asked x between ≡ 0
      → waiting x (run requested initial).0.inner ≡ 0
  nothing_waits fresh fresh' =
      total_zero (weigh x) 0 (run requested initial).0.inner.cached_blocks
        (run-sorted requested initial tt)
        (λ c. ap (λ l. waits_at x c l.inner) requested-ends ∙ nowhere fresh fresh' c)

asked_once : (x : ℕ) (b : H256) → asked x (get_traces x b) ≡ 1
asked_once x b = ground arith

-- A request for the traces of a block on a fresh channel, in any run in which the tracing of the
-- block ends after it: by then the channel has been used or dropped, exactly once, whatever batches
-- are started, stopped or expire and whatever other requests come, before it and in between.
pub finished-answers :
    (x : ℕ) (b : H256) (r : Traces) (before between : List Incoming)
    → all_asked x before ≡ 0
    → all_asked x between ≡ 0
    → settled x (run (before ++ get_traces x b ∷ (between ++ finished b r ∷ [])) initial).1 ≡ 1
finished-answers x b r before between fresh fresh' = omega (
  arith,
  run-conserves x (before ++ get_traces x b ∷ (between ++ finished b r ∷ [])),
  all_asked-append x before (get_traces x b ∷ (between ++ finished b r ∷ [])),
  all_asked-append x between (finished b r ∷ []),
  asked_once x b,
  nothing_waits x b r before between fresh fresh',
)
