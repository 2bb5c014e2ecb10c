-- ===== src/TraceRpc/Cache/Runs.antt =====
-- The invariant of the cache task over whole runs of its loop, and what follows from it.
use edgeware_node.Prelude.{
  ℕ, ◌+◌, ◌^◌, ◌<◌, ◌≡◌, subst, inl, inr, List, [], ◌∷◌, none, some, arith, Option-cases,
}
use edgeware_node.BTreeMap
use edgeware_node.BTreeMap.{
  BTreeMap, From, Below, Below-le, total, total-insert, total-remove, total-le, insert-From,
  insert-Below, remove-From, remove-Below, get_above, weight_of, weight-le-total, empty_of_get,
}
use edgeware_node.Tracing.Types.{H256}
use edgeware_node.TraceRpc.Cache.{CacheTask, create}
use edgeware_node.TraceRpc.Cache.Loop.{
  Incoming, CacheLoop, start_batch, get_traces, stop_batch, started, finished, delay_over, initial,
  step, run, pick,
}
use edgeware_node.TraceRpc.Cache.Counts.{CountOk}
use edgeware_node.TraceRpc.Cache.Invariant.{
  uses, Inv, cost, costs, start_batch-Inv, stop_batch-Inv, expired_batch-Inv, get_traces-Inv,
  started-Inv, finished-Inv,
}

Inv-add : (w : ℕ) (s : CacheTask) → Inv w s → Inv (w + 0) s
Inv-add w s v = subst (λ n. Inv n s) (omega arith) v

pub step-Inv :
    (e : Incoming) (l : CacheLoop) (w : ℕ)
    → Inv w l.inner
    → w + cost e < 2 ^ 64
    → Inv (w + cost e) (step e l).0.inner
unfolding step
step-Inv (start_batch sender blocks) l w v room = start_batch-Inv w l.inner v sender blocks room
step-Inv (get_traces sender block) l w v room =
    Inv-add w _ (get_traces-Inv w l.inner v sender block)
step-Inv (stop_batch batch_id) l w v room = Inv-add w _ (stop_batch-Inv w l.inner v batch_id)
step-Inv (started block) l w v room = Inv-add w _ (started-Inv w l.inner v block)
step-Inv (finished block result) l w v room = Inv-add w _ (finished-Inv w l.inner v block result)
step-Inv (delay_over i) l w v room = elim (Option-cases (pick i l.batch_expirations).0) [
  | inl missed ↦ Inv-add w _ (rw (missed, step) v)
  | inr (batch_id, picked) ↦
      Inv-add w _ (rw (picked, step) (expired_batch-Inv w l.inner v (omega arith) batch_id))
]

run-Inv :
    (es : List Incoming) (l : CacheLoop) (w : ℕ)
    → Inv w l.inner
    → w + costs es < 2 ^ 64
    → Inv (w + costs es) (run es l).0.inner
unfolding run
run-Inv [] l w v room = Inv-add w _ v
run-Inv (e ∷ es) l w v room =
    subst (λ n. Inv n (run (e ∷ es) l).0.inner) (omega arith)
      (run-Inv es (step e l).0 (w + cost e) (step-Inv e l w v (omega arith)) (omega arith))

pub create-Inv : Inv 0 create
unfolding BTreeMap.get
create-Inv = record {
  ids = tt;
  fresh = tt;
  id_spent = omega arith;
  blocks_spent = omega arith;
  sorted = tt;
  counted = λ b. tt;
}

-- Whatever requests, messages and ended delays the task receives, and in whatever order, as long as
-- they ask for fewer than 2^64 batches and blocks in all: a cached block has an
-- `active_batch_count` of at least one, so that the subtraction in `expired_batch` never wraps, and
-- of at most the number of times that the batches which have not expired name the block.
pub run-Counted :
    (es : List Incoming)
    → costs es < 2 ^ 64
    → (b : H256)
    → CountOk
        (BTreeMap.get b (run es initial).0.inner.cached_blocks)
        (uses (run es initial).0.inner b)
run-Counted es room b = (run-Inv es initial 0 create-Inv (omega arith)).counted b

uses-pos :
    (b : H256) (s : CacheTask)
    → s.batches ≡ []
    → CountOk (BTreeMap.get b s.cached_blocks) (uses s b)
    → BTreeMap.get b s.cached_blocks ≡ none
uses-pos b s none_left ok = elim (Option-cases (BTreeMap.get b s.cached_blocks)) [
  | inl miss ↦ miss
  | inr (e, hit) ↦
      absurd
        (let k : CountOk (some e) 0 = rw none_left at (rw hit at ok) in omega (arith, k.0, k.1))
]

-- No block outlives the batches: after a run that asks for fewer than 2^64 batches and blocks in
-- all, and after which every batch has expired, the cache is empty.
pub run-no_leak :
    (es : List Incoming)
    → costs es < 2 ^ 64
    → (run es initial).0.inner.batches ≡ []
    → (run es initial).0.inner.cached_blocks ≡ []
run-no_leak es room none_left =
    empty_of_get _ (λ b. uses-pos b (run es initial).0.inner none_left (run-Counted es room b))
