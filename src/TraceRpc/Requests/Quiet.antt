-- ===== src/TraceRpc/Requests/Quiet.antt =====
-- What the cache task may hear without losing a block or a request: anything but that a batch is
-- stopped or expires, if the tracing of a block reports that block's result.
use edgeware_node.Prelude.{ℕ, ◌≤◌, ◌<◌, ◌≡◌, refl, ◌≢◌, inl, inr, List, [], ◌∷◌, none, arith}
use edgeware_node.BTreeMap
use edgeware_node.BTreeMap.{get-insert, weight_of}
use edgeware_node.Tracing.Types.{H256}
use edgeware_node.TraceRpc.Errors.{Traces}
use edgeware_node.TraceRpc.Cache.{
  CacheTask, CacheBlock, request_start_batch, request_get_traces, blocking_started,
  blocking_finished,
}
use edgeware_node.TraceRpc.Cache.Loop.{
  Incoming, CacheLoop, start_batch, get_traces, stop_batch, started, finished, delay_over, step,
  run,
}
use edgeware_node.TraceRpc.Cache.Answers.{start_blocks-keep}
use edgeware_node.TraceRpc.Cache.Conservation.{asked, all_asked}
use edgeware_node.TraceRpc.Requests.Honesty.{AllGenuine, entry-cases}

module _ (results : H256 → Traces) (first : ℕ) where
  -- Other requests for traces come on channels below `first`.
  abbrev pub IsQuiet : Incoming → Type 0
  IsQuiet (start_batch sender blocks) = Unit {0}
  IsQuiet (get_traces sender block) = sender < first
  IsQuiet (stop_batch batch_id) = ⊥
  IsQuiet (started block) = Unit {0}
  IsQuiet (finished block result) = result ≡ results block
  IsQuiet (delay_over i) = ⊥

  abbrev pub AllQuiet : List Incoming → Type 0
  AllQuiet [] = Unit {0}
  AllQuiet (e ∷ es) = IsQuiet e × AllQuiet es

  pub AllQuiet-AllGenuine : (es : List Incoming) → AllQuiet es → AllGenuine results es
  AllQuiet-AllGenuine [] q = tt
  AllQuiet-AllGenuine (start_batch sender blocks ∷ es) q = (tt, AllQuiet-AllGenuine es (q.1))
  AllQuiet-AllGenuine (get_traces sender block ∷ es) q = (tt, AllQuiet-AllGenuine es (q.1))
  AllQuiet-AllGenuine (stop_batch batch_id ∷ es) q = absurd (q.0)
  AllQuiet-AllGenuine (started block ∷ es) q = (tt, AllQuiet-AllGenuine es (q.1))
  AllQuiet-AllGenuine (finished block result ∷ es) q = (q.0, AllQuiet-AllGenuine es (q.1))
  AllQuiet-AllGenuine (delay_over i ∷ es) q = absurd (q.0)

  pub IsQuiet-asked : (x : ℕ) (e : Incoming) → first ≤ x → IsQuiet e → asked x e ≡ 0
  IsQuiet-asked x (start_batch sender blocks) le q = refl
  IsQuiet-asked x (get_traces sender block) le q = ground arith
  IsQuiet-asked x (stop_batch batch_id) le q = refl
  IsQuiet-asked x (started block) le q = refl
  IsQuiet-asked x (finished block result) le q = refl
  IsQuiet-asked x (delay_over i) le q = refl

  pub AllQuiet-asked : (x : ℕ) (es : List Incoming) → first ≤ x → AllQuiet es → all_asked x es ≡ 0
  AllQuiet-asked x [] le q = refl
  AllQuiet-asked x (e ∷ es) le q =
      omega (arith, IsQuiet-asked x e le (q.0), AllQuiet-asked x es le (q.1))

  -- A block that is in the cache stays there.
  pub put-there :
      (a h : H256) (e : CacheBlock) (s : CacheTask)
      → BTreeMap.get h s.cached_blocks ≢ none
      → BTreeMap.get h (BTreeMap.insert a e s.cached_blocks) ≢ none
  put-there a h e s there = rw (get-insert a h) (ground arith)

  pub step-there :
      (e : Incoming) (l : CacheLoop) (h : H256)
      → IsQuiet e
      → BTreeMap.get h l.inner.cached_blocks ≢ none
      → BTreeMap.get h (step e l).0.inner.cached_blocks ≢ none
  unfolding step request_start_batch request_get_traces blocking_started blocking_finished
  step-there (start_batch sender blocks) l h q there = start_blocks-keep blocks h _ there
  step-there (get_traces sender block) l h q there =
      elim (entry-cases (BTreeMap.get block l.inner.cached_blocks)) [
        | inl miss ↦ rw (miss, request_get_traces) there
        | inr (inl (n, begun, ws, u, hit)) ↦
            rw (hit, request_get_traces) (put-there block h _ l.inner there)
        | inr (inr (n, traces, hit)) ↦ rw (hit, request_get_traces) there
      ]
  step-there (stop_batch batch_id) l h q there = absurd q
  step-there (started block) l h q there =
      elim (entry-cases (BTreeMap.get block l.inner.cached_blocks)) [
        | inl miss ↦ rw (miss, blocking_started) there
        | inr (inl (n, begun, ws, u, hit)) ↦
            rw (hit, blocking_started) (put-there block h _ l.inner there)
        | inr (inr (n, traces, hit)) ↦ rw (hit, blocking_started) there
      ]
  step-there (finished block result) l h q there =
      elim (entry-cases (BTreeMap.get block l.inner.cached_blocks)) [
        | inl miss ↦ rw (miss, blocking_finished) there
        | inr (inl (n, begun, ws, u, hit)) ↦
            rw (hit, blocking_finished) (put-there block h _ l.inner there)
        | inr (inr (n, traces, hit)) ↦ rw (hit, blocking_finished) there
      ]
  step-there (delay_over i) l h q there = absurd q

  pub run-there :
      (es : List Incoming) (l : CacheLoop) (h : H256)
      → AllQuiet es
      → BTreeMap.get h l.inner.cached_blocks ≢ none
      → BTreeMap.get h (run es l).0.inner.cached_blocks ≢ none
  unfolding run
  run-there [] l h q there = there
  run-there (e ∷ es) l h q there = run-there es (step e l).0 h (q.1) (step-there e l h (q.0) there)
