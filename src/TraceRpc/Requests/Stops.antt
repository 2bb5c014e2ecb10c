-- ===== src/TraceRpc/Requests/Stops.antt =====
-- Every batch that `filter` starts over the cache task it stops, on each of its paths.
use edgeware_node.Prelude.{ℕ, ◌≡◌, refl, ap, ◌∙◌, List, [], ◌∷◌, ◌++◌, some}
use edgeware_node.Prelude.Results.{ok, err}
use edgeware_node.BTreeMap
use edgeware_node.BTreeMap.{get-insert}
use edgeware_node.Tracing.Types.{H256}
use edgeware_node.TraceRpc.Errors.{RpcResult, Traces}
use edgeware_node.TraceRpc.Cache.{start_block, request_start_batch}
use edgeware_node.TraceRpc.Cache.Loop.{
  CacheLoop, Incoming, start_batch, get_traces, stop_batch, started, finished, delay_over, step,
  run,
}
use edgeware_node.TraceRpc.Cache.Sorted.{each_block-keep, start_block-next, start_block-batches}
use edgeware_node.TraceRpc.Requests.{
  World, Schedule, request_traces, request_batch, request_stop, cache_requester,
}
use edgeware_node.TraceRpc.Requests.Quiet.{IsQuiet, AllQuiet}
use edgeware_node.TraceRpc.Requests.Answered.{IsCalm, ==-same, awaited-world, quiet-append, waited}
use edgeware_node.TraceRpc.Requests.Served.{heard, request_batch-id}
use edgeware_node.TraceRpc.Filter.{Client, FilterRequest, prepare, filter}
use edgeware_node.TraceRpc.Filter.Batches.{own_batch, filter-stopped, started_batch}

module _ (results : H256 → Traces) (first : ℕ) where
  -- Quiet inputs start no delay and end none.
  step-delays :
      (e : Incoming) (l : CacheLoop)
      → IsQuiet results first e
      → (step e l).0.batch_expirations ≡ l.batch_expirations
  unfolding step
  step-delays (start_batch sender blocks) l q = refl
  step-delays (get_traces sender block) l q = refl
  step-delays (stop_batch batch_id) l q = absurd q
  step-delays (started block) l q = refl
  step-delays (finished block result) l q = refl
  step-delays (delay_over i) l q = absurd q

  run-delays :
      (es : List Incoming) (l : CacheLoop)
      → AllQuiet results first es
      → (run es l).0.batch_expirations ≡ l.batch_expirations
  unfolding run
  run-delays [] l q = refl
  run-delays (e ∷ es) l q = run-delays es (step e l).0 (q.1) ∙ step-delays e l (q.0)

-- The batches that a request starts, which are none or one.
abbrev pub started_by : RpcResult (List H256 × ℕ) → ℕ → List ℕ
started_by (err e) next = []
started_by (ok (hashes, limit)) next = next ∷ []

module _ (schedule : Schedule) (first : ℕ) (calm : IsCalm schedule first) where
  starts-delays :
      (hashes : List H256) (w : World)
      → (request_batch schedule hashes w).1.task.batch_expirations ≡ w.task.batch_expirations
  unfolding request_batch step
  starts-delays hashes w =
      run-delays schedule.results first (schedule.before w.next_sender) w.task
        ((calm w.next_sender).0)

  asks-delays :
      (h : H256) (w : World)
      → (request_traces schedule h w).1.task.batch_expirations ≡ w.task.batch_expirations
  unfolding request_traces waited step
  asks-delays h w =
      let n = w.next_sender in
      let l = (run (schedule.before n) w.task).0 in
      let earlier = run-delays schedule.results first (schedule.before n) w.task ((calm n).0) in
      awaited-world schedule first (λ v. v.task.batch_expirations ≡ w.task.batch_expirations) h n
        (step (get_traces n h) l) _ earlier
        (run-delays schedule.results first
            (schedule.meanwhile n ++ finished h (schedule.results h) ∷ [])
            (step (get_traces n h) l).0
            (quiet-append schedule first (schedule.meanwhile n) h ((calm n).1))
          ∙ earlier)

  stops-delays :
      (batch_id : ℕ) (w : World)
      → (request_stop batch_id w).task.batch_expirations ≡ w.task.batch_expirations ++ batch_id ∷ []
  unfolding request_stop step
  stops-delays batch_id w = refl

  -- The batch that is started gets the next identifier.
  batch-id :
      (hashes : List H256) (w : World)
      → (request_batch schedule hashes w).0 ≡ ok ((heard schedule w).inner.next_batch_id)
  batch-id hashes w =
      request_batch-id schedule hashes w
      ∙ ap ok (each_block-keep (λ s. s.next_batch_id) start_block start_block-next hashes _)

  started_by-same :
      (p : RpcResult (List H256 × ℕ)) (w : World)
      → started_batch (cache_requester schedule) p w
        ≡ started_by p ((heard schedule w).inner.next_batch_id)
  started_by-same (err e) w = refl
  started_by-same (ok (hashes, limit)) w = ap own_batch (batch-id hashes w)

  -- If the task hears meanwhile anything but that another batch is stopped or expires, the tracing
  -- of a block reporting that block's result and others asking for traces on channels below some
  -- bound, then `trace_filter` adds the delay of one batch to those that run, that of the batch that
  -- it has started, by its identifier, under which the task keeps its blocks: whether the traces are
  -- fetched or not; and none if the request is refused or a header is missing, before a batch is
  -- started.
  pub filter-stops :
      (client : Client) (max_count : ℕ) (req : FilterRequest) (w : World)
      → let batch_id = (heard schedule w).inner.next_batch_id in
        ((filter (cache_requester schedule) client max_count req w).1.task.batch_expirations
          ≡ w.task.batch_expirations ++ started_by (prepare client max_count req) batch_id)
        × ((hashes : List H256)
            → BTreeMap.get batch_id ((request_batch schedule hashes w).1.task.inner.batches)
              ≡ some hashes)
  unfolding request_batch step request_start_batch
  filter-stops client max_count req w = (
    filter-stopped (cache_requester schedule) client max_count (λ v. v.task.batch_expirations)
          starts-delays asks-delays stops-delays req w
        ∙ ap (λ l. w.task.batch_expirations ++ l)
            (started_by-same (prepare client max_count req) w),
    λ hashes.
        ap (BTreeMap.get ((heard schedule w).inner.next_batch_id))
          (each_block-keep (λ s. s.batches) start_block start_block-batches hashes _)
        ∙ get-insert _ _ hashes _
        ∙ rw (==-same ((heard schedule w).inner.next_batch_id)) refl,
  )
