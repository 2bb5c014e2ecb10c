-- ===== src/Tests/Cache.antt =====
-- Runs of the cache task: two batches share a block, which is traced, and one of them expires.
use edgeware_node.Prelude.{◌+◌, ◌≡◌, refl, List, [], ◌∷◌, ◌++◌, some, false, arith}
use edgeware_node.Prelude.Results.{ok, err}
use edgeware_node.BTreeMap
use edgeware_node.TraceRpc.Errors.{tracing_panicked, not_batched}
use edgeware_node.TraceRpc.Cache.{
  CacheTask, create, expired_batch, send_traces, drop_unqueue, request_start_batch,
  request_get_traces, request_stop_batch, expired_batch, each_block, start_block, stop_block,
  expire_block, remove_block, drop_state,
}
use edgeware_node.TraceRpc.Cache.Loop.{
  Incoming, CacheLoop, start_batch, get_traces, stop_batch, started, finished, delay_over, initial,
  run, step,
}
use edgeware_node.TraceRpc.Requests.Honesty.{Honest, run-Honest}
use edgeware_node.TraceRpc.Cache.Counts.{CountOk}
use edgeware_node.TraceRpc.Cache.Runs.{run-Counted, run-no_leak}
use edgeware_node.TraceRpc.Cache.Invariant.{uses}
use edgeware_node.TraceRpc.Cache.Replies.{waiting, settled}
use edgeware_node.TraceRpc.Cache.Conservation.{run-conserves}
use edgeware_node.TraceRpc.Cache.Answered.{finished-answers}
use edgeware_node.TraceRpc.Cache.Answers.{pooled_block}
use edgeware_node.TraceRpc.Cache.Kept.{finished-keeps}
use edgeware_node.TraceRpc.Cache.Expiry.{expired_batch-takes_block}

abbrev shared : List Incoming
shared =
    start_batch 1 (70 ∷ 71 ∷ [])
    ∷ start_batch 2 (71 ∷ [])
    ∷ started 71
    ∷ get_traces 3 71
    ∷ get_traces 4 71
    ∷ finished 71 (ok [])
    ∷ stop_batch 0
    ∷ delay_over 0
    ∷ []

abbrev ended : List Incoming
ended = start_batch 1 (70 ∷ 70 ∷ []) ∷ get_traces 3 70 ∷ stop_batch 0 ∷ delay_over 0 ∷ []

-- A task with one block, for which two requests wait.
abbrev task : CacheTask
task = record {
  cached_blocks = (71, pooled_block 2 false (3 ∷ 4 ∷ []) 1) ∷ [];
  batches = (0, 71 ∷ []) ∷ (1, 71 ∷ []) ∷ [];
  next_batch_id = 2;
  next_channel = 2;
}

run-Counted_example :
    CountOk
      (BTreeMap.get 71 (run shared initial).0.inner.cached_blocks)
      (uses (run shared initial).0.inner 71)
run-Counted_example = run-Counted shared (omega arith) 71

run-no_leak_example : (run ended initial).0.inner.cached_blocks ≡ []
unfolding run step request_start_batch request_stop_batch expired_batch request_get_traces
    each_block start_block stop_block expire_block remove_block drop_state BTreeMap.get
    BTreeMap.insert BTreeMap.remove
run-no_leak_example = run-no_leak ended (omega arith) refl

run-conserves_example :
    waiting 3 (run shared initial).0.inner + settled 3 (run shared initial).1 ≡ 1
run-conserves_example = run-conserves 3 shared

abbrev idle : CacheLoop
idle = record { inner = task; batch_expirations = [] }

-- Afterwards a batch is stopped, and the tracing reports once more.
finished-keeps_example :
    let done = step (finished 71 (err (tracing_panicked 71))) idle in
    (done.1
      ≡ send_traces 4 (err (tracing_panicked 71))
        ∷ send_traces 3 (err (tracing_panicked 71))
        ∷ drop_unqueue 1
        ∷ [])
    × ((step (get_traces 9 71) (run (stop_batch 0 ∷ finished 71 (ok []) ∷ []) done.0).0).1
        ≡ send_traces 9 (err (tracing_panicked 71)) ∷ [])
unfolding BTreeMap.get
finished-keeps_example =
    finished-keeps 71 (err (tracing_panicked 71)) idle 2 false (3 ∷ 4 ∷ []) 1 9
      (stop_batch 0 ∷ finished 71 (ok []) ∷ []) refl tt

-- A batch is started and its block requested; the other batch is stopped, the block begins, another
-- request comes for it, and its tracing ends.
finished-answers_example :
    settled 9
      (run
        ((start_batch 1 (70 ∷ []) ∷ [])
          ++ get_traces 9 70
            ∷ ((stop_batch 1 ∷ started 70 ∷ get_traces 8 70 ∷ []) ++ finished 70 (ok []) ∷ []))
        initial).1
    ≡ 1
finished-answers_example =
    finished-answers 9 70 (ok []) (start_batch 1 (70 ∷ []) ∷ [])
      (stop_batch 1 ∷ started 70 ∷ get_traces 8 70 ∷ []) refl refl

-- The first batch of the task has the identifier 0, the second one 1.
expired_batch-takes_block_example :
    let stopped = (request_stop_batch 0 (request_start_batch 1 (70 ∷ []) create).0).0 in
    let again = request_start_batch 2 (70 ∷ []) stopped in
    let expired = expired_batch 0 again.0 in
    (BTreeMap.get 1 expired.0.batches ≡ some (70 ∷ []))
    × (expired.1 ≡ drop_unqueue 1 ∷ [])
    × (request_get_traces 3 70 expired.0 ≡ (expired.0, send_traces 3 (err (not_batched 70)) ∷ []))
unfolding BTreeMap.get
expired_batch-takes_block_example = expired_batch-takes_block 70 1 2 3 create refl (omega arith)

-- Every block is traced to no traces.
run-Honest_example : Honest (λ h. ok []) (run shared initial).0.inner
run-Honest_example =
    run-Honest (λ h. ok []) shared (tt, (tt, (tt, (tt, (tt, (refl, (tt, (tt, tt))))))))
