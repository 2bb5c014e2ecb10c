-- ===== src/TraceRpc/Requests/Delivery.antt =====
-- A request that waits for a block is sent the block's traces, whatever quiet inputs come first.
use edgeware_node.Prelude.{
  ℕ, ◌≤◌, ◌<◌, ◌≡◌, refl, ap, sym, ◌∙◌, subst, ◌⊎◌, inl, inr, List, [], ◌∷◌, ◌++◌, map, reverse,
  none, some, true, false, arith, ◌==◌, Option-cases, Bool-cases, ==_iff, count, count-append,
}
use edgeware_node.Prelude.Results.{ok}
use edgeware_node.BTreeMap
use edgeware_node.BTreeMap.{get-insert, weight_of}
use edgeware_node.Tracing.Types.{H256}
use edgeware_node.TraceRpc.Errors.{RpcResult, Traces}
use edgeware_node.TraceRpc.Cache.{
  CacheTask, CacheBlock, pooled, Effect, send_batch_id, send_traces, drop_sender, spawn_tracing,
  drop_unqueue, each_block, start_block, request_start_batch, request_get_traces, blocking_started,
  blocking_finished, put_block,
}
use edgeware_node.TraceRpc.Cache.Loop.{
  Incoming, CacheLoop, start_batch, get_traces, stop_batch, started, finished, delay_over, step,
  run,
}
use edgeware_node.TraceRpc.Cache.Replies.{weigh, count-reverse}
use edgeware_node.TraceRpc.Cache.Waiting.{waits_at, step-waits}
use edgeware_node.TraceRpc.Cache.Answered.{asked_for-asked, finished-clears}
use edgeware_node.TraceRpc.Requests.{traces_on}
use edgeware_node.TraceRpc.Requests.Honesty.{entry-cases}
use edgeware_node.TraceRpc.Requests.Quiet.{IsQuiet, AllQuiet, IsQuiet-asked}

module _ (ch : ℕ) where
  traces_on-append :
      (es fs : List Effect) → traces_on ch es ≡ none → traces_on ch (es ++ fs) ≡ traces_on ch fs
  traces_on-append [] fs h = refl
  traces_on-append (send_batch_id c i ∷ es) fs h = traces_on-append es fs h
  traces_on-append (send_traces c r ∷ es) fs h = ground (arith, traces_on-append es fs)
  traces_on-append (drop_sender c ∷ es) fs h = ground (arith, traces_on-append es fs)
  traces_on-append (spawn_tracing b u ∷ es) fs h = traces_on-append es fs h
  traces_on-append (drop_unqueue u ∷ es) fs h = traces_on-append es fs h

  traces_on-first :
      (r : RpcResult Traces) (es fs : List Effect)
      → traces_on ch es ≡ some r
      → traces_on ch (es ++ fs) ≡ some r
  traces_on-first r [] fs h = absurd (cc h)
  traces_on-first r (send_batch_id c i ∷ es) fs h = traces_on-first r es fs h
  traces_on-first r (send_traces c t ∷ es) fs h = ground (arith, traces_on-first r es fs)
  traces_on-first r (drop_sender c ∷ es) fs h = ground (arith, traces_on-first r es fs)
  traces_on-first r (spawn_tracing b u ∷ es) fs h = traces_on-first r es fs h
  traces_on-first r (drop_unqueue u ∷ es) fs h = traces_on-first r es fs h

  sent-all :
      (r : Traces) (ws : List ℕ) (u : ℕ)
      → 1 ≤ count ch ws
      → traces_on ch (map (λ w. send_traces w r) ws ++ drop_unqueue u ∷ []) ≡ some (ok r)
  sent-all r [] u h = absurd (omega arith)
  sent-all r (w ∷ ws) u h = elim (Bool-cases (w == ch)) [
    | inl same ↦ rw same refl
    | inr other ↦ rw other (sent-all r ws u (ground (arith, h)))
  ]

  sent-none :
      (r : Traces) (ws : List ℕ) (u : ℕ)
      → count ch ws ≡ 0
      → traces_on ch (map (λ w. send_traces w r) ws ++ drop_unqueue u ∷ []) ≡ none
  sent-none r [] u h = refl
  sent-none r (w ∷ ws) u h = elim (Bool-cases (w == ch)) [
    | inl same ↦ absurd (ground (arith, h, same))
    | inr other ↦ rw other (sent-none r ws u (ground (arith, h)))
  ]

  start_blocks-silent :
      (i sender : ℕ) (bs : List H256) (s : CacheTask)
      → traces_on ch ((each_block start_block bs s).1 ++ send_batch_id sender i ∷ []) ≡ none
  unfolding each_block start_block
  start_blocks-silent i sender [] s = refl
  start_blocks-silent i sender (b ∷ bs) s = elim (Option-cases (BTreeMap.get b s.cached_blocks)) [
    | inl miss ↦ rw (miss, start_block) (start_blocks-silent i sender bs _)
    | inr (e, hit) ↦ rw (hit, start_block) (start_blocks-silent i sender bs _)
  ]

  -- Putting an entry where no fewer requests wait.
  pub put-wait :
      (a h : H256) (e : CacheBlock) (s : CacheTask)
      → waits_at ch a s ≤ weigh ch e
      → waits_at ch h s ≤ waits_at ch h (put_block a e s)
  put-wait a h e s le = elim (Bool-cases (a == h)) [
    | inl same ↦
        subst (λ k. waits_at ch k s ≤ waits_at ch k (put_block a e s)) ((==_iff a h).0 same)
          (rw (get-insert a a) (ground (arith, le)))
    | inr other ↦ rw (get-insert a h, other) (omega arith)
  ]

  pub waits_hit :
      (a : H256) (s : CacheTask) (e : CacheBlock)
      → BTreeMap.get a s.cached_blocks ≡ some e
      → waits_at ch a s ≡ weigh ch e
  waits_hit a s e hit = ap (weight_of (weigh ch)) hit

  waits_miss :
      (a : H256) (s : CacheTask) → BTreeMap.get a s.cached_blocks ≡ none → waits_at ch a s ≡ 0
  waits_miss a s miss = ap (weight_of (weigh ch)) miss

  start_block-wait :
      (a h : H256) (s : CacheTask) → waits_at ch h s ≤ waits_at ch h (start_block a s).0
  unfolding start_block
  start_block-wait a h s = elim (Option-cases (BTreeMap.get a s.cached_blocks)) [
    | inl miss ↦ rw (miss, start_block) (put-wait a h _ s (omega (arith, waits_miss a s miss)))
    | inr (e, hit) ↦ rw (hit, start_block) (put-wait a h _ s (omega (arith, waits_hit a s e hit)))
  ]

  start_blocks-wait :
      (h : H256) (bs : List H256) (s : CacheTask)
      → waits_at ch h s ≤ waits_at ch h (each_block start_block bs s).0
  unfolding each_block
  start_blocks-wait h [] s = omega arith
  start_blocks-wait h (b ∷ bs) s =
      omega (arith, start_block-wait b h s, start_blocks-wait h bs (start_block b s).0)

  -- What a quiet input does for the request that waits: it is sent the block's traces, or still
  -- waits.
  abbrev Served : (H256 → Traces) → H256 → CacheTask → List Effect → Type 0
  Served results h s es =
      (traces_on ch es ≡ some (ok (results h))) ⊎ ((traces_on ch es ≡ none) × (1 ≤ waits_at ch h s))

module _ (results : H256 → Traces) (first ch : ℕ) (mine : first ≤ ch) (h : H256) where
  flipped : (g : H256) → h == g ≡ false → g == h ≡ false
  flipped g other = ground arith

  finished-serves :
      (g : H256) (r : Traces) (l : CacheLoop)
      → r ≡ results g
      → 1 ≤ waits_at ch h l.inner
      → ((c : H256) → h == c ≡ false → waits_at ch c l.inner ≡ 0)
      → Served ch results h (blocking_finished g r l.inner).0 (blocking_finished g r l.inner).1
  unfolding blocking_finished
  finished-serves g r l own waits elsewhere =
      elim (entry-cases (BTreeMap.get g l.inner.cached_blocks)) [
        | inl miss ↦ rw (miss, blocking_finished) (inr (refl, waits))
        | inr (inl (n, begun, ws, u, hit)) ↦
            rw (hit, blocking_finished)
              (elim (Bool-cases (h == g)) [
                | inl same ↦ inl (
                    let eq = (==_iff h g).0 same in
                    sent-all ch r (reverse ws) u (
                      omega (
                        arith,
                        waits,
                        ap (λ k. waits_at ch k l.inner) eq,
                        waits_hit ch g l.inner _ hit,
                        count-reverse ch ws,
                      ))
                    ∙ ap (λ t. some (ok t)) (own ∙ ap results (sym eq)))
                | inr other ↦ inr (
                  sent-none ch r (reverse ws) u (
                      omega (
                        arith,
                        elsewhere g other,
                        waits_hit ch g l.inner _ hit,
                        count-reverse ch ws,
                      )),
                  rw (get-insert g h, flipped g other) waits,
                )
              ])
        | inr (inr (n, traces, hit)) ↦ rw (hit, blocking_finished) (inr (refl, waits))
      ]

  get_traces-serves :
      (sender : ℕ) (g : H256) (l : CacheLoop)
      → sender < first
      → 1 ≤ waits_at ch h l.inner
      → Served ch results h
          (request_get_traces sender g l.inner).0
          (request_get_traces sender g l.inner).1
  unfolding request_get_traces
  get_traces-serves sender g l below waits =
      elim (entry-cases (BTreeMap.get g l.inner.cached_blocks)) [
        | inl miss ↦ rw (miss, request_get_traces) (inr (ground arith, waits))
        | inr (inl (n, begun, ws, u, hit)) ↦
            rw (hit, request_get_traces)
              (inr (
                refl,
                omega (
                  arith,
                  put-wait ch g h
                      (record {
                        active_batch_count = n;
                        state = pooled begun (ws ++ sender ∷ []) u;
                      })
                      l.inner
                      (omega
                        (arith, waits_hit ch g l.inner _ hit, count-append ch ws (sender ∷ []))),
                ),
              ))
        | inr (inr (n, traces, hit)) ↦ rw (hit, request_get_traces) (inr (ground arith, waits))
      ]

  started-serves :
      (g : H256) (l : CacheLoop)
      → 1 ≤ waits_at ch h l.inner
      → Served ch results h (blocking_started g l.inner).0 (blocking_started g l.inner).1
  unfolding blocking_started
  started-serves g l waits = elim (entry-cases (BTreeMap.get g l.inner.cached_blocks)) [
    | inl miss ↦ rw (miss, blocking_started) (inr (refl, waits))
    | inr (inl (n, begun, ws, u, hit)) ↦
        rw (hit, blocking_started)
          (inr (
            refl,
            omega (
              arith,
              put-wait ch g h (record { active_batch_count = n; state = pooled true ws u }) l.inner
                  (omega (arith, waits_hit ch g l.inner _ hit)),
            ),
          ))
    | inr (inr (n, traces, hit)) ↦ rw (hit, blocking_started) (inr (refl, waits))
  ]

  step-serves :
      (e : Incoming) (l : CacheLoop)
      → IsQuiet results first e
      → 1 ≤ waits_at ch h l.inner
      → ((c : H256) → h == c ≡ false → waits_at ch c l.inner ≡ 0)
      → Served ch results h (step e l).0.inner (step e l).1
  unfolding step request_start_batch
  step-serves (start_batch sender blocks) l q waits elsewhere = inr (
    start_blocks-silent ch _ sender blocks _,
    omega (
      arith,
      start_blocks-wait ch h blocks (record (l.inner) {
        batches = BTreeMap.insert l.inner.next_batch_id blocks l.inner.batches;
      }),
    ),
  )
  step-serves (get_traces sender g) l q waits elsewhere = get_traces-serves sender g l q waits
  step-serves (stop_batch batch_id) l q waits elsewhere = absurd q
  step-serves (started g) l q waits elsewhere = started-serves g l waits
  step-serves (finished g r) l q waits elsewhere = finished-serves g r l q waits elsewhere
  step-serves (delay_over i) l q waits elsewhere = absurd q

  elsewhere-step :
      (e : Incoming) (l : CacheLoop)
      → IsQuiet results first e
      → ((c : H256) → h == c ≡ false → waits_at ch c l.inner ≡ 0)
      → (c : H256) → h == c ≡ false
      → waits_at ch c (step e l).0.inner ≡ 0
  elsewhere-step e l q elsewhere c other = omega (
    arith,
    elsewhere c other,
    step-waits ch c e l
        (omega (arith, asked_for-asked ch c e, IsQuiet-asked results first ch e mine q)),
  )

  last-serves :
      (l : CacheLoop)
      → 1 ≤ waits_at ch h l.inner
      → ((c : H256) → h == c ≡ false → waits_at ch c l.inner ≡ 0)
      → traces_on ch (step (finished h (results h)) l).1 ≡ some (ok (results h))
  unfolding step
  last-serves l waits elsewhere = elim (finished-serves h (results h) l refl waits elsewhere) [
    | inl served ↦ served
    | inr (silent, still) ↦ absurd (omega (arith, still, finished-clears ch h (results h) l.inner))
  ]

  -- Quiet inputs and then the end of the block's tracing send the request the block's traces.
  pub run-serves :
      (es : List Incoming) (l : CacheLoop)
      → AllQuiet results first es
      → 1 ≤ waits_at ch h l.inner
      → ((c : H256) → h == c ≡ false → waits_at ch c l.inner ≡ 0)
      → traces_on ch (run (es ++ finished h (results h) ∷ []) l).1 ≡ some (ok (results h))
  unfolding run
  run-serves [] l q waits elsewhere =
      traces_on-first ch _ (step (finished h (results h)) l).1 [] (last-serves l waits elsewhere)
  run-serves (e ∷ es) l q waits elsewhere = elim (step-serves e l (q.0) waits elsewhere) [
    | inl served ↦ traces_on-first ch _ (step e l).1 _ served
    | inr (silent, still) ↦
        traces_on-append ch (step e l).1 _ silent
        ∙ run-serves es (step e l).0 (q.1) still (elsewhere-step e l (q.0) elsewhere)
  ]
