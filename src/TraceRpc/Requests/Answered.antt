-- ===== src/TraceRpc/Requests/Answered.antt =====
-- The handler over the cache task: what it asks for, it gets.
use edgeware_node.Prelude.{
  ℕ, ◌+◌, ◌≤◌, ◌≡◌, refl, sym, ap, ◌≢◌, subst, ◌⊎◌, inl, inr, List, [], ◌∷◌, ◌++◌, Option, none,
  some, Bool, true, false, arith, ◌==◌, count, count-append,
}
use edgeware_node.Prelude.Results.{ok, ok_or, ◌>>=◌}
use edgeware_node.BTreeMap
use edgeware_node.BTreeMap.{get-insert}
use edgeware_node.Tracing.Types.{H256}
use edgeware_node.TraceRpc.Errors.{RpcResult, Traces, channel_closed}
use edgeware_node.TraceRpc.Cache.{pooled, cached, Effect, put_block, request_get_traces}
use edgeware_node.TraceRpc.Cache.Loop.{CacheLoop, Incoming, step, run, get_traces, finished}
use edgeware_node.TraceRpc.Cache.Waiting.{waits_at, step-waits}
use edgeware_node.TraceRpc.Cache.Answered.{run-waits}
use edgeware_node.TraceRpc.Requests.{
  World, Schedule, traces_on, replayed_ok, awaited, request_traces,
}
use edgeware_node.TraceRpc.Requests.Honesty.{
  HeldIf, Honest, entry, entry-cases, run_from-Honest, step-Honest,
}
use edgeware_node.TraceRpc.Requests.Quiet.{
  AllQuiet, AllQuiet-AllGenuine, AllQuiet-asked, run-there, put-there,
}
use edgeware_node.TraceRpc.Requests.Delivery.{run-serves}

pub ==-same : (n : ℕ) → (n == n) ≡ true
==-same n = ground arith

self : (n : ℕ) → count n (n ∷ []) ≡ 1
self n = ground arith

module _ (schedule : Schedule) (first : ℕ) where
  pub quiet-append :
      (es : List Incoming) (h : H256)
      → AllQuiet schedule.results first es
      → AllQuiet schedule.results first (es ++ finished h (schedule.results h) ∷ [])
  quiet-append [] h q = (refl, tt)
  quiet-append (e ∷ es) h q = (q.0, quiet-append es h (q.1))

  -- What the task hears is quiet.
  abbrev pub IsCalm : Type 0
  IsCalm =
      (ch : ℕ)
      → AllQuiet schedule.results first (schedule.before ch)
        × AllQuiet schedule.results first (schedule.meanwhile ch)

  -- The cache is honest, and the channels that are still to come wait nowhere.
  abbrev pub IsFresh : ℕ → CacheLoop → Type 0
  IsFresh n l = (x : ℕ) → n ≤ x → (c : H256) → waits_at x c l.inner ≡ 0

  abbrev pub IsGood : ℕ → CacheLoop → Type 0
  IsGood n l = (first ≤ n) × Honest schedule.results l.inner × IsFresh n l

  abbrev pub IsThere : H256 → CacheLoop → Type 0
  IsThere h l = BTreeMap.get h l.inner.cached_blocks ≢ none

  pub run-IsGood :
      (es : List Incoming) (n : ℕ) (l : CacheLoop)
      → AllQuiet schedule.results first es
      → IsGood n l
      → IsGood n (run es l).0
  run-IsGood es n l q (le, honest, fresh) = (
    le,
    run_from-Honest schedule.results es l (AllQuiet-AllGenuine schedule.results first es q) honest,
    λ x more c. omega (
      arith,
      fresh x more c,
      run-waits x c es l (AllQuiet-asked schedule.results first x es (omega arith) q),
    ),
  )

  -- The request on the next channel.
  ask-IsGood :
      (h : H256) (n : ℕ) (l : CacheLoop) → IsGood n l → IsGood (n + 1) (step (get_traces n h) l).0
  ask-IsGood h n l (le, honest, fresh) = (
    omega arith,
    step-Honest schedule.results (get_traces n h) l tt honest,
    λ x more c.
        omega (arith, fresh x (omega arith) c, step-waits x c (get_traces n h) l (ground arith)),
  )

  ask-IsThere :
      (g h : H256) (n : ℕ) (l : CacheLoop) → IsThere g l → IsThere g (step (get_traces n h) l).0
  unfolding step request_get_traces
  ask-IsThere g h n l there = elim (entry-cases (BTreeMap.get h l.inner.cached_blocks)) [
    | inl miss ↦ rw (miss, request_get_traces) there
    | inr (inl (k, begun, ws, u, hit)) ↦
        rw (hit, request_get_traces) (put-there schedule.results first h g _ l.inner there)
    | inr (inr (k, traces, hit)) ↦ rw (hit, request_get_traces) there
  ]

  -- A block is in the cache, and the world is good for the next requests.
  abbrev pub Ready : H256 → World → Type 0
  Ready h w = IsThere h w.task × IsGood w.next_sender w.task

  -- The request for a block is answered at once, or waits.
  ask-cases :
      (h : H256) (n : ℕ) (l : CacheLoop)
      → IsThere h l
      → Honest schedule.results l.inner
      → (traces_on n (step (get_traces n h) l).1 ≡ some (ok (schedule.results h)))
        ⊎ ((traces_on n (step (get_traces n h) l).1 ≡ none)
            × (1 ≤ waits_at n h (step (get_traces n h) l).0.inner))
  unfolding step request_get_traces
  ask-cases h n l there honest = elim (entry-cases (BTreeMap.get h l.inner.cached_blocks)) [
    | inl miss ↦ absurd (there miss)
    | inr (inl (k, begun, ws, u, hit)) ↦
        rw (hit, request_get_traces) (inr (refl, waits k begun ws u))
    | inr (inr (k, traces, hit)) ↦
        rw (hit, request_get_traces)
          (inl (rw (==-same n) (ap (λ t. some (ok t)) (own k traces hit))))
  ]
    where
      waits :
          (k : ℕ) (begun : Bool) (ws : List ℕ) (u : ℕ)
          → 1
            ≤ waits_at n h (
                put_block h
                  (record { active_batch_count = k; state = pooled begun (ws ++ n ∷ []) u })
                  l.inner)
      waits k begun ws u =
          rw (get-insert h h, ==-same h) (omega (arith, count-append n ws (n ∷ []), self n))

      own :
          (k : ℕ) (traces : Traces)
          → BTreeMap.get h l.inner.cached_blocks ≡ entry k (cached traces)
          → traces ≡ schedule.results h
      own k traces hit = subst (HeldIf schedule.results h) hit (honest h)

  -- Nowhere else does that request wait.
  ask-elsewhere :
      (h : H256) (n : ℕ) (l : CacheLoop)
      → IsGood n l
      → (c : H256) → h == c ≡ false
      → waits_at n c (step (get_traces n h) l).0.inner ≡ 0
  ask-elsewhere h n l good c other = omega (
    arith,
    good.2 n (omega arith) c,
    step-waits n c (get_traces n h) l (rw (other, ==-same n) refl),
  )

  -- What a wait comes to.
  unfoldable pub waited : H256 → ℕ → CacheLoop × List Effect → CacheLoop × List Effect
  waited h ch sent = run (schedule.meanwhile ch ++ finished h (schedule.results h) ∷ []) sent.0

  awaited-answer :
      (h : H256) (ch : ℕ) (sent : CacheLoop × List Effect) (o : Option (RpcResult Traces))
      → (o ≡ some (ok (schedule.results h)))
        ⊎ ((o ≡ none) × (traces_on ch (waited h ch sent).1 ≡ some (ok (schedule.results h))))
      → (awaited schedule h ch sent o).0 ≡ replayed_ok (schedule.results h)
  unfolding awaited waited
  awaited-answer h ch sent o (inl at_once) =
      subst (λ x. (awaited schedule h ch sent x).0 ≡ replayed_ok (schedule.results h)) (sym at_once)
        refl
  awaited-answer h ch sent o (inr (not_yet, served)) =
      subst (λ x. (awaited schedule h ch sent x).0 ≡ replayed_ok (schedule.results h)) (sym not_yet)
        (ap (λ x. ok_or x channel_closed >>= λ received. received >>= replayed_ok) served)

  pub awaited-world :
      (P : World → Type 0) (h : H256) (ch : ℕ) (sent : CacheLoop × List Effect)
      (o : Option (RpcResult Traces))
      → P (record { task = sent.0; next_sender = ch + 1 })
      → P (record { task = (waited h ch sent).0; next_sender = ch + 1 })
      → P (awaited schedule h ch sent o).1
  unfolding awaited waited
  awaited-world P h ch sent (some received) now later = now
  awaited-world P h ch sent none now later = later

  module _ (calm : IsCalm) where
    heard-Ready :
        (h : H256) (w : World)
        → Ready h w
        → Ready h (record {
          task = (run (schedule.before w.next_sender) w.task).0;
          next_sender = w.next_sender;
        })
    heard-Ready h w (there, good) = (
      run-there schedule.results first (schedule.before w.next_sender) w.task h
          ((calm w.next_sender).0) there,
      run-IsGood (schedule.before w.next_sender) w.next_sender w.task ((calm w.next_sender).0) good,
    )

    pub answers :
        (h : H256) (w : World)
        → Ready h w
        → (request_traces schedule h w).0 ≡ replayed_ok (schedule.results h)
    unfolding request_traces waited
    answers h w ready =
        let n = w.next_sender in
        let l = (run (schedule.before n) w.task).0 in
        let (there, good) = heard-Ready h w ready in
        awaited-answer h n (step (get_traces n h) l) _ (elim (ask-cases h n l there (good.1)) [
          | inl at_once ↦ inl at_once
          | inr (not_yet, waits) ↦ inr (
            not_yet,
            run-serves schedule.results first n (good.0) h (schedule.meanwhile n)
                (step (get_traces n h) l).0 ((calm n).1) waits (ask-elsewhere h n l good),
          )
        ])

    pub keeps :
        (g h : H256) (w : World) → Ready h w → Ready g w → Ready g ((request_traces schedule h w).1)
    unfolding request_traces waited
    keeps g h w ready-h ready =
        let n = w.next_sender in
        let l = (run (schedule.before n) w.task).0 in
        let (there, good) = heard-Ready g w ready in
        let asked = (step (get_traces n h) l).0 in
        let es = schedule.meanwhile n ++ finished h (schedule.results h) ∷ [] in
        let quiet = quiet-append (schedule.meanwhile n) h ((calm n).1) in
        awaited-world (Ready g) h n (step (get_traces n h) l) _
          (ask-IsThere g h n l there, ask-IsGood h n l good)
          (
            run-there schedule.results first es asked g quiet (ask-IsThere g h n l there),
            run-IsGood es (n + 1) asked quiet (ask-IsGood h n l good),
          )
