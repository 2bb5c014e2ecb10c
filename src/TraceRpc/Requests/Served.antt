-- ===== src/TraceRpc/Requests/Served.antt =====
-- The endpoint `trace_filter` over the cache task: the handler, the requester and the task together.
use edgeware_node.Prelude.{
  ℕ, ◌+◌, ◌≤◌, ◌≡◌, refl, ap, inl, inr, List, [], ◌∷◌, ◌++◌, map, some, arith, Option-cases, count,
}
use edgeware_node.Prelude.Results.{ok, ok_or}
use edgeware_node.BTreeMap
use edgeware_node.Tracing.Types.{H256, TransactionTrace}
use edgeware_node.TraceRpc.Errors.{channel_closed}
use edgeware_node.TraceRpc.Cache.{
  CacheTask, send_batch_id, each_block, start_block, request_start_batch,
}
use edgeware_node.TraceRpc.Cache.Loop.{CacheLoop, Incoming, start_batch, step, run}
use edgeware_node.TraceRpc.Cache.Answers.{start_batch-caches}
use edgeware_node.TraceRpc.Cache.Waiting.{step-waits}
use edgeware_node.TraceRpc.Requests.{World, Schedule, id_on, request_batch, cache_requester}
use edgeware_node.TraceRpc.Requests.Honesty.{step-Honest}
use edgeware_node.TraceRpc.Requests.Answered.{
  IsCalm, IsGood, IsThere, Ready, run-IsGood, answers, keeps,
}
use edgeware_node.TraceRpc.Filter.{FilterRequest, RequestBlockId, Client, unwrap_or, filter}
use edgeware_node.TraceRpc.Filter.Window.{AllReady, wanted, window}
use edgeware_node.TraceRpc.Filter.Range.{traced_heights, filter-window}

-- The identifier of a new batch is sent on the channel of its request.
start_blocks-id :
    (ch batch_id : ℕ) (bs : List H256) (s : CacheTask)
    → id_on ch ((each_block start_block bs s).1 ++ send_batch_id ch batch_id ∷ []) ≡ some batch_id
unfolding each_block start_block
start_blocks-id ch batch_id [] s = ground arith
start_blocks-id ch batch_id (b ∷ bs) s = elim (Option-cases (BTreeMap.get b s.cached_blocks)) [
  | inl miss ↦ rw (miss, start_block) (start_blocks-id ch batch_id bs _)
  | inr (e, hit) ↦ rw (hit, start_block) (start_blocks-id ch batch_id bs _)
]

-- What the task has heard when the batch is started.
abbrev pub heard : Schedule → World → CacheLoop
heard schedule w = (run (schedule.before w.next_sender) w.task).0

pub request_batch-id :
    (schedule : Schedule) (blocks : List H256) (w : World)
    → (request_batch schedule blocks w).0
      ≡ ok
          (each_block start_block blocks (record ((heard schedule w).inner) {
            batches =
                BTreeMap.insert
                  ((heard schedule w).inner.next_batch_id)
                  blocks
                  ((heard schedule w).inner.batches);
          })).0.next_batch_id
unfolding request_batch step request_start_batch
request_batch-id schedule blocks w =
    ap (λ o. ok_or o channel_closed) (start_blocks-id w.next_sender _ blocks _)

module _ (schedule : Schedule) (first : ℕ) (calm : IsCalm schedule first) where
  batch-IsGood :
      (blocks : List H256) (w : World)
      → IsGood schedule first w.next_sender w.task
      → IsGood schedule first (w.next_sender + 1) (request_batch schedule blocks w).1.task
  unfolding request_batch
  batch-IsGood blocks w good =
      let ch = w.next_sender in
      let (le, honest, fresh) =
        run-IsGood schedule first (schedule.before ch) ch w.task ((calm ch).0) good in
      (
        omega arith,
        step-Honest schedule.results (start_batch ch blocks) (heard schedule w) tt honest,
        λ x more c. omega (
          arith,
          fresh x (omega arith) c,
          step-waits x c (start_batch ch blocks) (heard schedule w) refl,
        ),
      )

  batch-IsThere :
      (blocks : List H256) (w : World) (h : H256)
      → 1 ≤ count h blocks
      → IsThere schedule first h (request_batch schedule blocks w).1.task
  unfolding request_batch step
  batch-IsThere blocks w h named =
      start_batch-caches w.next_sender blocks h (heard schedule w).inner named

  batch-AllReady :
      (w : World) (blocks hs : List H256)
      → IsGood schedule first w.next_sender w.task
      → ((h : H256) → count h hs ≤ count h blocks)
      → AllReady (Ready schedule first) hs (request_batch schedule blocks w).1
  unfolding request_batch
  batch-AllReady w blocks [] good within = tt
  batch-AllReady w blocks (h ∷ hs) good within = (
    (batch-IsThere blocks w h (ground (arith, within h)), batch-IsGood blocks w good),
    batch-AllReady w blocks hs good (λ g. ground (arith, within g)),
  )

-- Every block is traced with success.
abbrev pub succeeding :
    (H256 → List TransactionTrace) → (ℕ → List Incoming) → (ℕ → List Incoming) → Schedule
succeeding traces_of before meanwhile = record {
  results = λ h. ok (traces_of h);
  before = before;
  meanwhile = meanwhile;
}

-- The endpoint over the cache task, among other requests. If the client has the headers of all
-- heights of the range, every block is traced with success, what the cache holds is pooled or has
-- its own traces, nothing waits on a channel that is still to come, and the count is not above the
-- maximum; and if, until the answer is there, the task hears anything but that a batch is stopped or
-- expires, the tracing of a block reporting its own traces and others asking for traces on earlier
-- channels: then the request is answered with the window of the wanted traces of the blocks of the
-- range, in the order of the heights and without the genesis block.
pub trace_filter-window :
    (traces_of : H256 → List TransactionTrace) (before meanwhile : ℕ → List Incoming)
    (client : Client) (max_count : ℕ) (req : FilterRequest) (hash_of : ℕ → H256) (from to : ℕ)
    (w : World)
    → IsCalm (succeeding traces_of before meanwhile) w.next_sender
    → IsGood (succeeding traces_of before meanwhile) w.next_sender w.next_sender w.task
    → ((h : ℕ) → from ≤ h → h ≤ to → client.header h ≡ ok (some (hash_of h)))
    → req.from_block ≡ some (RequestBlockId.number from)
    → req.to_block ≡ some (RequestBlockId.number to)
    → unwrap_or req.count max_count ≤ max_count
    → (filter (cache_requester (succeeding traces_of before meanwhile)) client max_count req w).0
      ≡ window max_count req (wanted req traces_of (map hash_of (traced_heights from to)))
trace_filter-window traces_of before meanwhile client max_count req hash_of from to w calm good
      found at_from at_to fits =
    let schedule = succeeding traces_of before meanwhile in
    let first = w.next_sender in
    let hashes = map hash_of (traced_heights from to) in
    let sent = (request_batch schedule hashes w).1 in
    ap (λ r. r.0)
      (filter-window (cache_requester schedule) client max_count req traces_of
        (Ready schedule first) (answers schedule first calm) (keeps schedule first calm) hash_of
        from to _ w sent found at_from at_to fits
        (λ i. (request_batch-id schedule hashes w i, sent))
        (batch-AllReady schedule first calm w hashes hashes good (λ h. omega arith)))
