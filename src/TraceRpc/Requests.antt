-- ===== src/TraceRpc/Requests.antt =====
-- client/rpc/trace/src/lib.rs, `CacheRequester`: the requests that the handler sends to the cache
-- task, and how it waits for the answers. The task is alive, so that sending never fails, and the
-- tracing of a block ends. Whatever else the task hears is a parameter, the `Schedule`.
pub mod Honesty
pub mod Quiet
pub mod Delivery
pub mod Answered
pub mod Served
pub mod Stops
use edgeware_node.Prelude.{
  ℕ, ◌+◌, List, [], ◌∷◌, ◌++◌, Option, none, some, Bool, true, false, ◌==◌, if◌then◌else◌,
}
use edgeware_node.Prelude.Results.{Result, ok, err, ok_or, ◌>>=◌, map_err}
use edgeware_node.Tracing.Types.{H256}
use edgeware_node.TraceRpc.Errors.{RpcResult, Traces, channel_closed, replay_failed}
use edgeware_node.TraceRpc.Cache.{
  Effect, send_batch_id, send_traces, drop_sender, spawn_tracing, drop_unqueue,
}
use edgeware_node.TraceRpc.Cache.Loop.{
  CacheLoop, Incoming, start_batch, get_traces, stop_batch, started, finished, step, run,
}
use edgeware_node.TraceRpc.Filter.{Requester}

-- The task, and the next response channel.
pub record World : Type 0 where
  pub task : CacheLoop
  pub next_sender : ℕ

-- The results of tracing; what the task hears before the message with a response channel; and what
-- it hears while that request waits, before the tracing of its block ends.
pub record Schedule : Type 0 where
  pub results : H256 → Traces
  pub before : ℕ → List Incoming
  pub meanwhile : ℕ → List Incoming

-- What a channel is sent: a batch's identifier, or traces. A channel that is dropped is closed.
abbrev pub id_on : ℕ → List Effect → Option ℕ
id_on ch [] = none
id_on ch (send_batch_id c batch_id ∷ es) = if c == ch then some batch_id else id_on ch es
id_on ch (send_traces c traces ∷ es) = id_on ch es
id_on ch (drop_sender c ∷ es) = id_on ch es
id_on ch (spawn_tracing h u ∷ es) = id_on ch es
id_on ch (drop_unqueue u ∷ es) = id_on ch es

abbrev pub traces_on : ℕ → List Effect → Option (RpcResult Traces)
traces_on ch [] = none
traces_on ch (send_batch_id c batch_id ∷ es) = traces_on ch es
traces_on ch (send_traces c traces ∷ es) = if c == ch then some (ok traces) else traces_on ch es
traces_on ch (drop_sender c ∷ es) = if c == ch then some (err channel_closed) else traces_on ch es
traces_on ch (spawn_tracing h u ∷ es) = traces_on ch es
traces_on ch (drop_unqueue u ∷ es) = traces_on ch es

unfoldable pub request_batch : Schedule → List H256 → World → RpcResult ℕ × World
request_batch schedule blocks w =
    let heard = (run (schedule.before w.next_sender) w.task).0 in
    let sent = step (start_batch w.next_sender blocks) heard in
    (
      ok_or (id_on w.next_sender sent.1) channel_closed,
      record { task = sent.0; next_sender = w.next_sender + 1 },
    )

-- An error that the block's tracing reported is wrapped.
abbrev pub replayed_ok : Traces → Traces
replayed_ok traces = map_err replay_failed traces

-- The answer comes at once, or when the block has been traced at the latest. The first use of the
-- channel is the answer; if the channel is dropped, it is closed.
pub awaited :
    Schedule → H256 → ℕ → CacheLoop × List Effect → Option (RpcResult Traces) → Traces × World
awaited schedule block ch sent (some received) =
    (received >>= replayed_ok, record { task = sent.0; next_sender = ch + 1 })
awaited schedule block ch sent none =
    let traced =
      run (schedule.meanwhile ch ++ finished block (schedule.results block) ∷ []) sent.0 in
    (
      (ok_or (traces_on ch traced.1) channel_closed >>= λ received. received >>= replayed_ok),
      record { task = traced.0; next_sender = ch + 1 },
    )

unfoldable pub request_traces : Schedule → H256 → World → Traces × World
unfolding awaited
request_traces schedule block w =
    let heard = (run (schedule.before w.next_sender) w.task).0 in
    let sent = step (get_traces w.next_sender block) heard in
    awaited schedule block w.next_sender sent (traces_on w.next_sender sent.1)

unfoldable pub request_stop : ℕ → World → World
request_stop batch_id w = record {
  task = (step (stop_batch batch_id) w.task).0;
  next_sender = w.next_sender;
}

abbrev pub cache_requester : Schedule → Requester World
cache_requester schedule = record {
  start_batch = request_batch schedule;
  get_traces = request_traces schedule;
  stop_batch = request_stop;
}
