-- ===== src/TraceRpc/Requests/Honesty.antt =====
-- The cache holds nothing but what the tracing of its blocks has reported, in every run.
use edgeware_node.Prelude.{
  ℕ, ◌+◌, ◌-◌, ◌^◌, ◌%◌, ◌≡◌, refl, subst, ◌⊎◌, inl, inr, List, [], ◌∷◌, Option, none, some, Bool,
  arith, ◌==◌, Option-cases, Bool-cases, ==_iff,
}
use edgeware_node.BTreeMap
use edgeware_node.BTreeMap.{get-insert, get-remove}
use edgeware_node.Tracing.Types.{H256}
use edgeware_node.TraceRpc.Errors.{Traces}
use edgeware_node.TraceRpc.Cache.{
  CacheTask, CacheBlock, CacheBlockState, pooled, cached, Outcome, each_block, start_block,
  stop_block, expire_block, request_start_batch, request_get_traces, request_stop_batch,
  blocking_started, blocking_finished, expired_batch, remove_block,
}
use edgeware_node.TraceRpc.Cache.Loop.{
  Incoming, CacheLoop, start_batch, get_traces, stop_batch, started, finished, delay_over, initial,
  step, run, pick,
}

abbrev pub entry : ℕ → CacheBlockState → Option CacheBlock
entry n st = some (record { active_batch_count = n; state = st })

abbrev pub IsPooled : Option CacheBlock → Type 0
IsPooled o = (n : ℕ) × (begun : Bool) × (ws : List ℕ) × (u : ℕ) × (o ≡ entry n (pooled begun ws u))

abbrev pub IsCached : Option CacheBlock → Type 0
IsCached o = (n : ℕ) × (traces : Traces) × (o ≡ entry n (cached traces))

state-cases : (n : ℕ) (st : CacheBlockState) → IsPooled (entry n st) ⊎ IsCached (entry n st)
state-cases n (pooled begun ws u) = inl (n, begun, ws, u, refl)
state-cases n (cached traces) = inr (n, traces, refl)

pub entry-cases : (o : Option CacheBlock) → (o ≡ none) ⊎ (IsPooled o ⊎ IsCached o)
entry-cases none = inl refl
entry-cases (some e) = inr (state-cases e.active_batch_count e.state)

module _ (results : H256 → Traces) where
  -- The block is in the cache, and if it has been traced then with its own result.
  abbrev pub Held : H256 → Option CacheBlock → Type 0
  Held h none = ⊥
  Held h (some e) = elim e.state [ pooled b ws u ↦ Unit {0} | cached traces ↦ (traces ≡ results h) ]

  -- What is in the cache is pooled, or has its own result.
  abbrev pub HeldIf : H256 → Option CacheBlock → Type 0
  HeldIf h none = Unit {0}
  HeldIf h (some e) = Held h (some e)

  abbrev pub Honest : CacheTask → Type 0
  Honest s = (h : H256) → HeldIf h (BTreeMap.get h s.cached_blocks)

  start_block-Honest : (b : H256) (s : CacheTask) → Honest s → Honest (start_block b s).0
  unfolding start_block
  start_block-Honest b s honest h = elim (Option-cases (BTreeMap.get b s.cached_blocks)) [
    | inl miss ↦
        rw (miss, start_block)
          (rw (get-insert b h) (elim (Bool-cases (b == h)) [
            | inl same ↦ rw same tt
            | inr other ↦ rw other (honest h)
          ]))
    | inr (e, hit) ↦
        rw (hit, start_block)
          (rw (get-insert b h) (elim (Bool-cases (b == h)) [
            | inl same ↦ rw same (
                subst (λ x. HeldIf x (some e)) ((==_iff b h).0 same)
                  (subst (HeldIf b) hit (honest b)))
            | inr other ↦ rw other (honest h)
          ]))
  ]

  pub start_blocks-Honest :
      (bs : List H256) (s : CacheTask) → Honest s → Honest (each_block start_block bs s).0
  unfolding each_block
  start_blocks-Honest [] s honest = honest
  start_blocks-Honest (b ∷ bs) s honest =
      start_blocks-Honest bs (start_block b s).0 (start_block-Honest b s honest)

module _ (results : H256 → Traces) where
  -- An input is genuine unless it reports another result of a block's tracing.
  abbrev pub Genuine : Incoming → Type 0
  Genuine (start_batch sender blocks) = Unit {0}
  Genuine (get_traces sender block) = Unit {0}
  Genuine (stop_batch batch_id) = Unit {0}
  Genuine (started block) = Unit {0}
  Genuine (finished block result) = result ≡ results block
  Genuine (delay_over i) = Unit {0}

  abbrev pub AllGenuine : List Incoming → Type 0
  AllGenuine [] = Unit {0}
  AllGenuine (e ∷ es) = Genuine e × AllGenuine es

  -- A block that is put into the cache, or taken from it.
  put_lem :
      (b : H256) (e : CacheBlock) (s : CacheTask) (h : H256)
      → Honest results s
      → HeldIf results b (some e)
      → HeldIf results h (BTreeMap.get h (BTreeMap.insert b e s.cached_blocks))
  put_lem b e s h honest held = rw (get-insert b h) (elim (Bool-cases (b == h)) [
    | inl same ↦ rw same (subst (λ x. HeldIf results x (some e)) ((==_iff b h).0 same) held)
    | inr other ↦ rw other (honest h)
  ])

  remove_lem :
      (b : H256) (s : CacheTask) (h : H256)
      → Honest results s
      → HeldIf results h (BTreeMap.get h (BTreeMap.remove b s.cached_blocks))
  remove_lem b s h honest =
      rw (get-remove b h)
        (elim (Bool-cases (b == h)) [ inl same ↦ rw same tt | inr other ↦ rw other (honest h) ])

  -- A loop keeps what its body keeps.
  each_block-Honest :
      (body : H256 → CacheTask → Outcome)
      → ((b : H256) (s : CacheTask) → Honest results s → Honest results (body b s).0)
      → (bs : List H256) (s : CacheTask) → Honest results s
      → Honest results (each_block body bs s).0
  unfolding each_block
  each_block-Honest body keep [] s honest = honest
  each_block-Honest body keep (b ∷ bs) s honest =
      each_block-Honest body keep bs (body b s).0 (keep b s honest)

  stop_block-Honest :
      (b : H256) (s : CacheTask) → Honest results s → Honest results (stop_block b s).0
  unfolding stop_block remove_block
  stop_block-Honest b s honest h = elim (Option-cases (BTreeMap.get b s.cached_blocks)) [
    | inl miss ↦ rw (miss, stop_block) (honest h)
    | inr (e, hit) ↦ rw (hit, stop_block) (ground (arith, honest h, remove_lem b s h honest))
  ]

  expire_block-Honest :
      (b : H256) (s : CacheTask) → Honest results s → Honest results (expire_block b s).0
  unfolding expire_block remove_block
  expire_block-Honest b s honest h = elim (Option-cases (BTreeMap.get b s.cached_blocks)) [
    | inl miss ↦ rw (miss, expire_block) (honest h)
    | inr (e, hit) ↦
        (let left = (e.active_batch_count + 2 ^ 64 - 1) % 2 ^ 64 in
          rw (hit, expire_block)
            (elim (Bool-cases (left == 0)) [
              | inl unused ↦ rw unused (remove_lem b s h honest)
              | inr used ↦ rw used (
                  put_lem b (record e { active_batch_count = left }) s h honest
                    (subst (HeldIf results b) hit (honest b)))
            ]))
  ]

  get_traces-Honest :
      (sender : ℕ) (b : H256) (s : CacheTask)
      → Honest results s
      → Honest results (request_get_traces sender b s).0
  unfolding request_get_traces
  get_traces-Honest sender b s honest h = elim (entry-cases (BTreeMap.get b s.cached_blocks)) [
    | inl miss ↦ rw (miss, request_get_traces) (honest h)
    | inr (inl (n, begun, ws, u, hit)) ↦ rw (hit, request_get_traces) (put_lem b _ s h honest tt)
    | inr (inr (n, traces, hit)) ↦ rw (hit, request_get_traces) (honest h)
  ]

  started-Honest :
      (b : H256) (s : CacheTask) → Honest results s → Honest results (blocking_started b s).0
  unfolding blocking_started
  started-Honest b s honest h = elim (entry-cases (BTreeMap.get b s.cached_blocks)) [
    | inl miss ↦ rw (miss, blocking_started) (honest h)
    | inr (inl (n, begun, ws, u, hit)) ↦ rw (hit, blocking_started) (put_lem b _ s h honest tt)
    | inr (inr (n, traces, hit)) ↦ rw (hit, blocking_started) (honest h)
  ]

  finished-Honest :
      (b : H256) (r : Traces) (s : CacheTask)
      → r ≡ results b
      → Honest results s
      → Honest results (blocking_finished b r s).0
  unfolding blocking_finished
  finished-Honest b r s own honest h = elim (entry-cases (BTreeMap.get b s.cached_blocks)) [
    | inl miss ↦ rw (miss, blocking_finished) (honest h)
    | inr (inl (n, begun, ws, u, hit)) ↦ rw (hit, blocking_finished) (put_lem b _ s h honest own)
    | inr (inr (n, traces, hit)) ↦ rw (hit, blocking_finished) (honest h)
  ]

  pub step-Honest :
      (e : Incoming) (l : CacheLoop)
      → Genuine e
      → Honest results l.inner
      → Honest results (step e l).0.inner
  unfolding step request_start_batch request_stop_batch expired_batch
  step-Honest (start_batch sender blocks) l genuine honest =
      start_blocks-Honest results blocks _ honest
  step-Honest (get_traces sender block) l genuine honest =
      get_traces-Honest sender block l.inner honest
  step-Honest (stop_batch batch_id) l genuine honest =
      each_block-Honest stop_block stop_block-Honest _ l.inner honest
  step-Honest (started block) l genuine honest = started-Honest block l.inner honest
  step-Honest (finished block result) l genuine honest =
      finished-Honest block result l.inner genuine honest
  step-Honest (delay_over i) l genuine honest = elim (Option-cases (pick i l.batch_expirations).0) [
    | inl missed ↦ rw (missed, step) honest
    | inr (batch_id, picked) ↦
        rw (picked, step) (each_block-Honest expire_block expire_block-Honest _ _ honest)
  ]

  pub run_from-Honest :
      (es : List Incoming) (l : CacheLoop)
      → AllGenuine es
      → Honest results l.inner
      → Honest results (run es l).0.inner
  unfolding run
  run_from-Honest [] l genuine honest = honest
  run_from-Honest (e ∷ es) l genuine honest =
      run_from-Honest es (step e l).0 (genuine.1) (step-Honest e l (genuine.0) honest)

  -- In every run in which the tracing of a block reports that block's own result only, what the
  -- cache holds is pooled or has its own result.
  pub run-Honest : (es : List Incoming) → AllGenuine es → Honest results (run es initial).0.inner
  unfolding BTreeMap.get
  run-Honest es genuine = run_from-Honest es initial genuine (λ h. tt)
