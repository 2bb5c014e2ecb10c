-- ===== src/TraceRpc/Cache/Loop.antt =====
-- client/rpc/trace/src/lib.rs, the main loop of `CacheTask::create`: one round for whatever the
-- `select!` picks. `batch_expirations` are the batches whose delay runs; any of them may end first.
use edgeware_node.Prelude.{ℕ, zero, suc, List, [], ◌∷◌, ◌++◌, Option, none, some}
use edgeware_node.Tracing.Types.{H256}
use edgeware_node.TraceRpc.Errors.{Traces}
use edgeware_node.TraceRpc.Cache.{
  CacheTask, Effect, Outcome, create, request_start_batch, request_get_traces, request_stop_batch,
  blocking_started, blocking_finished, expired_batch,
}

-- The requests, the messages of the blocking tasks, and the end of a delay.
pub data Incoming : Type 0 where
  -- sender, blocks
  start_batch : ℕ → List H256 → Incoming
  -- sender, block
  get_traces : ℕ → H256 → Incoming
  -- batch_id
  stop_batch : ℕ → Incoming
  -- block_hash
  started : H256 → Incoming
  -- block_hash, result
  finished : H256 → Traces → Incoming
  -- which of the running delays ends
  delay_over : ℕ → Incoming

pub record CacheLoop : Type 0 where
  pub inner : CacheTask
  pub batch_expirations : List ℕ

abbrev pub initial : CacheLoop
initial = record { inner = create; batch_expirations = [] }

-- The future at a place in the pool, and the pool without it.
unfoldable pub pick : ℕ → List ℕ → Option ℕ × List ℕ
pick i [] = (none, [])
pick zero (x ∷ xs) = (some x, xs)
pick (suc i) (x ∷ xs) = let rest = pick i xs in (rest.0, x ∷ rest.1)

expire_picked : Option ℕ → CacheTask → Outcome
expire_picked none s = (s, [])
expire_picked (some batch_id) s = expired_batch batch_id s

abbrev pub task_step : Incoming → List ℕ → CacheTask → Outcome
unfolding expire_picked pick
task_step (start_batch sender blocks) es s = request_start_batch sender blocks s
task_step (get_traces sender block) es s = request_get_traces sender block s
task_step (stop_batch batch_id) es s = request_stop_batch batch_id s
task_step (started block) es s = blocking_started block s
task_step (finished block result) es s = blocking_finished block result s
task_step (delay_over i) es s = expire_picked (pick i es).0 s

abbrev pub delays_after : Incoming → List ℕ → List ℕ
unfolding pick
delays_after (start_batch sender blocks) es = es
delays_after (get_traces sender block) es = es
delays_after (stop_batch batch_id) es = es ++ batch_id ∷ []
delays_after (started block) es = es
delays_after (finished block result) es = es
delays_after (delay_over i) es = (pick i es).1

unfoldable pub step : Incoming → CacheLoop → CacheLoop × List Effect
unfolding expire_picked pick
step e l =
    let done = task_step e l.batch_expirations l.inner in
    (record { inner = done.0; batch_expirations = delays_after e l.batch_expirations }, done.1)

unfoldable pub run : List Incoming → CacheLoop → CacheLoop × List Effect
run [] l = (l, [])
run (e ∷ es) l = let now = step e l in let later = run es now.0 in (later.0, now.1 ++ later.1)
