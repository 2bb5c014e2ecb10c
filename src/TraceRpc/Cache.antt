-- ===== src/TraceRpc/Cache.antt =====
-- client/rpc/trace/src/lib.rs, `CacheTask`: the task that traces blocks for batches of requests and
-- keeps the traces until the last batch that uses them expires.
-- A response channel (a `oneshot::Sender`) is a number. What a handler does to the outside is a
-- list of effects beside the new state.
pub mod Loop
pub mod Counts
pub mod Sorted
pub mod Invariant
pub mod Runs
pub mod Replies
pub mod Conservation
pub mod Waiting
pub mod Answered
pub mod Answers
pub mod Expiry
pub mod Kept
use edgeware_node.Prelude.{
  ℕ, ◌+◌, ◌-◌, ◌%◌, ◌^◌, List, [], ◌∷◌, ◌++◌, map, reverse, Option, none, some, Bool, true, false,
  ◌==◌, if◌then◌else◌,
}
use edgeware_node.Prelude.Results.{err}
use edgeware_node.BTreeMap
use edgeware_node.BTreeMap.{BTreeMap}
use edgeware_node.Tracing.Types.{H256}
use edgeware_node.TraceRpc.Errors.{Traces, not_batched}

pub data CacheBlockState : Type 0 where
  -- started, waiting_requests, unqueue_sender
  pooled : Bool → List ℕ → ℕ → CacheBlockState
  cached : Traces → CacheBlockState

pub record CacheBlock : Type 0 where
  pub active_batch_count : ℕ
  pub state : CacheBlockState

-- `next_channel` names the unqueue channels that the task makes.
pub record CacheTask : Type 0 where
  pub cached_blocks : BTreeMap CacheBlock
  pub batches : BTreeMap (List H256)
  pub next_batch_id : ℕ
  pub next_channel : ℕ

pub data Effect : Type 0 where
  -- a response on a batch's channel
  send_batch_id : ℕ → ℕ → Effect
  -- a response on a request's channel
  send_traces : ℕ → Traces → Effect
  -- a request's channel is dropped without a response
  drop_sender : ℕ → Effect
  -- a tracing task is spawned for a block, with the receiver of this unqueue channel
  spawn_tracing : H256 → ℕ → Effect
  -- an unqueue channel is dropped, which wakes up its receiver
  drop_unqueue : ℕ → Effect

abbrev pub Outcome : Type 0
Outcome = CacheTask × List Effect

-- The state that `CacheTask::create` starts with.
abbrev pub create : CacheTask
create = record { cached_blocks = []; batches = []; next_batch_id = 0; next_channel = 0 }

-- What dropping an entry of the cache does.
unfoldable pub drop_state : CacheBlockState → List Effect
drop_state (pooled started waiting unqueue) = map drop_sender waiting ++ drop_unqueue unqueue ∷ []
drop_state (cached traces) = []

abbrev pub put_block : H256 → CacheBlock → CacheTask → CacheTask
put_block block entry s = record s { cached_blocks = BTreeMap.insert block entry s.cached_blocks }

unfoldable pub remove_block : H256 → CacheBlock → CacheTask → Outcome
remove_block block entry s =
    (record s { cached_blocks = BTreeMap.remove block s.cached_blocks }, drop_state entry.state)

-- One round of the loop of `request_start_batch`, for a block found in the cache or not. The
-- count is a `usize`.
start_found : H256 → Option CacheBlock → CacheTask → Outcome
start_found block (some entry) s = (
  put_block block (record entry { active_batch_count = (entry.active_batch_count + 1) % 2 ^ 64 }) s,
  [],
)
start_found block none s = (
  record (put_block block
      (record { active_batch_count = 1; state = pooled false [] s.next_channel }) s) {
        next_channel = s.next_channel + 1;
      },
  spawn_tracing block s.next_channel ∷ [],
)

unfoldable pub start_block : H256 → CacheTask → Outcome
unfolding start_found
start_block block s = start_found block (BTreeMap.get block s.cached_blocks) s

-- A loop over the blocks of a batch.
unfoldable pub each_block : (H256 → CacheTask → Outcome) → List H256 → CacheTask → Outcome
each_block body [] s = (s, [])
each_block body (block ∷ blocks) s =
    let now = body block s in
    let later = each_block body blocks now.0 in (later.0, now.1 ++ later.1)

unfoldable pub request_start_batch : ℕ → List H256 → CacheTask → Outcome
request_start_batch sender blocks s =
    let inserted = record s { batches = BTreeMap.insert s.next_batch_id blocks s.batches } in
    let started = each_block start_block blocks inserted in
    (
      record (started.0) { next_batch_id = (started.0.next_batch_id + 1) % 2 ^ 64 },
      started.1 ++ send_batch_id sender (started.0.next_batch_id) ∷ [],
    )

get_found : ℕ → H256 → Option CacheBlock → CacheTask → Outcome
get_found sender block none s = (s, send_traces sender (err (not_batched block)) ∷ [])
get_found sender block (some entry) s = elim entry.state [
  | pooled started waiting unqueue ↦ (
    put_block block (record entry { state = pooled started (waiting ++ sender ∷ []) unqueue }) s,
    [],
  )
  | cached traces ↦ (s, send_traces sender traces ∷ [])
]

unfoldable pub request_get_traces : ℕ → H256 → CacheTask → Outcome
unfolding get_found
request_get_traces sender block s = get_found sender block (BTreeMap.get block s.cached_blocks) s

-- `active_batch_count == 1 && matches!(state, Pooled { started: false, .. })`
is_only_pooled : CacheBlock → Bool
is_only_pooled entry = elim entry.state [
  | pooled started waiting unqueue ↦ if started then false else entry.active_batch_count == 1
  | cached traces ↦ false
]

stop_found : H256 → Option CacheBlock → CacheTask → Outcome
stop_found block none s = (s, [])
stop_found block (some entry) s =
    if is_only_pooled entry then remove_block block entry s else (s, [])

unfoldable pub stop_block : H256 → CacheTask → Outcome
unfolding stop_found is_only_pooled
stop_block block s = stop_found block (BTreeMap.get block s.cached_blocks) s

batch_or_none : Option (List H256) → List H256
batch_or_none none = []
batch_or_none (some blocks) = blocks

unfoldable pub request_stop_batch : ℕ → CacheTask → Outcome
unfolding batch_or_none
request_stop_batch batch_id s =
    each_block stop_block (batch_or_none (BTreeMap.get batch_id s.batches)) s

started_found : H256 → Option CacheBlock → CacheTask → CacheTask
started_found block none s = s
started_found block (some entry) s = elim entry.state [
  | pooled started waiting unqueue ↦
      put_block block (record entry { state = pooled true waiting unqueue }) s
  | cached traces ↦ s
]

unfoldable pub blocking_started : H256 → CacheTask → Outcome
unfolding started_found
blocking_started block s = (started_found block (BTreeMap.get block s.cached_blocks) s, [])

finished_found : H256 → Traces → Option CacheBlock → CacheTask → Outcome
finished_found block result none s = (s, [])
finished_found block result (some entry) s = elim entry.state [
  | pooled started waiting unqueue ↦ (
    put_block block (record entry { state = cached result }) s,
    map (λ sender. send_traces sender result) (reverse waiting) ++ drop_unqueue unqueue ∷ [],
  )
  | cached traces ↦ (s, [])
]

unfoldable pub blocking_finished : H256 → Traces → CacheTask → Outcome
unfolding finished_found
blocking_finished block result s =
    finished_found block result (BTreeMap.get block s.cached_blocks) s

-- The `usize` subtraction `active_batch_count -= 1`.
expire_found : H256 → Option CacheBlock → CacheTask → Outcome
expire_found block none s = (s, [])
expire_found block (some entry) s =
    let left = (entry.active_batch_count + 2 ^ 64 - 1) % 2 ^ 64 in
    if left == 0
    then remove_block block entry s
    else (put_block block (record entry { active_batch_count = left }) s, [])

unfoldable pub expire_block : H256 → CacheTask → Outcome
unfolding expire_found
expire_block block s = expire_found block (BTreeMap.get block s.cached_blocks) s

unfoldable pub expired_batch : ℕ → CacheTask → Outcome
unfolding batch_or_none
expired_batch batch_id s =
    each_block expire_block (batch_or_none (BTreeMap.get batch_id s.batches))
      (record s { batches = BTreeMap.remove batch_id s.batches })
