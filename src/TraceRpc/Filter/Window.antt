-- ===== src/TraceRpc/Filter/Window.antt =====
-- What `fetch_traces` returns, told without its counter.
use mathlib.Core.List.{append-nil, append_assoc}
use edgeware_node.Prelude.{
  ℕ, suc, ◌+◌, ◌-◌, ◌≤◌, ◌<◌, ◌≡◌, sym, ap, subst, ◌∙◌, ◌⊎◌, inl, inr, List, [], ◌∷◌, ◌++◌, Option,
  none, some, ◌&&◌, arith, ltb, leb, if◌then◌else◌, length, take, drop, keep, length-append,
  length-drop, drop_all, take_all, drop-append_lt, drop-append_ge, take-append_le, Bool-cases,
}
use edgeware_node.Prelude.Results.{ok, err}
use edgeware_node.Prelude.Int.{sub_ℕ, add_ℕ-sub_ℕ, sub_ℕ_pos, sub_ℕ_low}
use edgeware_node.Tracing.Types.{H256, TransactionTrace}
use edgeware_node.TraceRpc.Errors.{Traces, over_maximum}
use edgeware_node.TraceRpc.Filter.{
  FilterRequest, Requester, unwrap_or, is_wanted, done, next, add_round, full_round, on_answer,
  fetch_blocks, fetch_traces,
}

-- The wanted traces of the blocks, in order.
abbrev pub wanted :
    FilterRequest → (H256 → List TransactionTrace) → List H256 → List TransactionTrace
wanted req traces_of [] = []
wanted req traces_of (h ∷ hs) = keep (is_wanted req) (traces_of h) ++ wanted req traces_of hs

-- The traces asked for, out of all that are wanted: those behind the first `after`, and of these at
-- most `count`. Without a count there may only be fewer than the maximum.
abbrev pub window_of : ℕ → ℕ → Option ℕ → List TransactionTrace → Traces
window_of max_count after (some c) all = ok (take c (drop after all))
window_of max_count after none all =
    if ltb after (length all) && leb max_count (length all - after)
    then err (over_maximum max_count)
    else ok (drop after all)

abbrev pub window : ℕ → FilterRequest → List TransactionTrace → Traces
window max_count req all = window_of max_count (unwrap_or req.after 0) req.count all

skipped_lem :
    (after : ℕ) (seen kept : List TransactionTrace)
    → after < length seen + length kept
    → let amount = length seen + length kept - after in
      drop after seen
        ++ (if ltb amount (length kept) then drop (length kept - amount) kept else kept)
      ≡ drop after (seen ++ kept)
skipped_lem after seen kept h = elim (Bool-cases (ltb (length seen) after)) [
  | inl short ↦
      rw
        (
          drop_all after seen (ground (arith, short)),
          drop-append_ge after (after - length seen) seen kept (ground (arith, short)),
        )
        (ground (
          arith,
          ap (λ n. drop n kept)
              (let e : length kept - (length seen + length kept - after) ≡ after - length seen =
                  ground (arith, short) in
                e),
        ))
  | inr long ↦ rw (drop-append_lt after seen kept (ground (arith, long))) (ground (arith, long))
]

module _ (max_count limit : ℕ) (req : FilterRequest) (after : ℕ) where
  low_round :
      (n : ℕ) (kept traces : List TransactionTrace)
      → n ≤ after
      → add_round max_count req limit (sub_ℕ n after) kept traces ≡ next traces
  unfolding add_round
  low_round n kept traces h = elim (sub_ℕ_low n after h) [ inl e ↦ rw e | inr e ↦ rw e ]

  high_round :
      (seen kept : List TransactionTrace)
      → after < length seen + length kept
      → add_round max_count req limit
          (sub_ℕ (length seen + length kept) after)
          kept
          (drop after seen)
        ≡ (if leb limit (length seen + length kept - after)
            then full_round max_count limit req.count (drop after (seen ++ kept))
            else next (drop after (seen ++ kept)))
  unfolding add_round
  high_round seen kept h =
      let amount = length seen + length kept - after in
      let e : suc (amount - 1) ≡ amount = omega arith in
      rw (sub_ℕ_pos (length seen + length kept) after h, add_round)
        (rw e (rw (skipped_lem after seen kept h)))

-- The loop has not yet collected as many traces as it may.
abbrev IsOpen : ℕ → ℕ → ℕ → Type 0
IsOpen limit after n = (n ≤ after) ⊎ (n - after < limit)

open_lem :
    (max_count after : ℕ) (c : Option ℕ) (all : List TransactionTrace)
    → IsOpen (unwrap_or c max_count) after (length all)
    → ok (drop after all) ≡ window_of max_count after c all
open_lem max_count after (some c) all h =
    ap ok (sym (take_all c (drop after all) (omega (arith, length-drop after all, h))))
open_lem max_count after none all (inl h) = ground arith
open_lem max_count after none all (inr h) = ground arith

full_lem :
    (max_count after : ℕ) (c : Option ℕ) (all rest : List TransactionTrace)
    → after < length all
    → unwrap_or c max_count ≤ length all - after
    → full_round max_count (unwrap_or c max_count) c (drop after all)
      ≡ done (window_of max_count after c (all ++ rest))
unfolding full_round
full_lem max_count after (some c) all rest h k =
    ap (λ xs. done (ok xs))
      (sym (
        ap (take c) (drop-append_lt after all rest (omega arith))
        ∙ take-append_le c (drop after all) rest (omega (arith, length-drop after all))))
full_lem max_count after none all rest h k = ground (arith, length-append all rest)

-- Each of the blocks is ready.
abbrev pub AllReady : {S : Type 0} → (H256 → S → Type 0) → List H256 → S → Type 0
AllReady Ready [] s = Unit {0}
AllReady Ready (h ∷ hs) s = Ready h s × AllReady Ready hs s

module _ {S : Type 0} (requester : Requester S) (max_count : ℕ) (req : FilterRequest)
    (traces_of : H256 → List TransactionTrace) (Ready : H256 → S → Type 0)
    (answers : (h : H256) (s : S) → Ready h s → (requester.get_traces h s).0 ≡ ok (traces_of h))
    (keeps : (g h : H256) (s : S)
      → Ready h s
      → Ready g s
      → Ready g ((requester.get_traces h s).1)) where
  abbrev after : ℕ
  after = unwrap_or req.after 0

  abbrev limit : ℕ
  limit = unwrap_or req.count max_count

  abbrev loop_on : List H256 → ℕ → List TransactionTrace → S → Traces
  loop_on hs n traces s = (fetch_blocks requester max_count req limit hs (sub_ℕ n after) traces s).0

  stay-Ready :
      (h : H256) (s : S)
      → Ready h s
      → (hs : List H256) → AllReady Ready hs s
      → AllReady Ready hs ((requester.get_traces h s).1)
  stay-Ready h s ready [] all = tt
  stay-Ready h s ready (g ∷ hs) all = (keeps g h s ready (all.0), stay-Ready h s ready hs (all.1))

  fetch_lem :
      (hs : List H256) (seen : List TransactionTrace) (s : S)
      → AllReady Ready hs s
      → IsOpen limit after (length seen)
      → loop_on hs (length seen) (drop after seen) s
        ≡ window max_count req (seen ++ wanted req traces_of hs)
  unfolding fetch_blocks on_answer
  fetch_lem [] seen s ready h =
      open_lem max_count after req.count seen h ∙ ap (window max_count req) (sym (append-nil seen))
  fetch_lem (b ∷ hs) seen s ready h =
      let kept = keep (is_wanted req) (traces_of b) in
      let rest = wanted req traces_of hs in
      let n = length seen + length kept in
      let s' = (requester.get_traces b s).1 in
      let more : IsOpen limit after n
          → loop_on hs n (drop after (seen ++ kept)) s'
            ≡ window max_count req (seen ++ (kept ++ rest)) =
        λ is_open.
          ap (λ m. loop_on hs m (drop after (seen ++ kept)) s') (sym (length-append seen kept))
          ∙ fetch_lem hs (seen ++ kept) s' (stay-Ready b s (ready.0) hs (ready.1))
              (subst (IsOpen limit after) (sym (length-append seen kept)) is_open)
          ∙ ap (window max_count req) (append_assoc seen kept rest) in
      ap
        (λ answer.
          (on_answer max_count req limit (fetch_blocks requester max_count req limit hs)
            (sub_ℕ (length seen) after) (drop after seen) answer).0)
        (λ i. (answers b s (ready.0) i, s'))
      ∙ rw (add_ℕ-sub_ℕ (length seen) after (length kept), on_answer)
          (elim (Bool-cases (ltb after n)) [
            | inr low ↦
                rw
                  (
                    low_round max_count limit req after n kept (drop after seen)
                        (ground (arith, low)),
                    on_answer,
                  )
                  (ap (λ t. loop_on hs n t s')
                      (drop_all after seen (ground (arith, low))
                        ∙ sym (
                            drop_all after (seen ++ kept)
                              (ground (arith, low, length-append seen kept))))
                    ∙ more (inl (ground (arith, low))))
            | inl high ↦
                rw
                  (high_round max_count limit req after seen kept (ground (arith, high)), on_answer)
                  (elim (Bool-cases (leb limit (n - after))) [
                    | inl enough ↦
                        rw (enough, on_answer)
                          (rw
                            (
                              full_lem max_count after req.count (seen ++ kept) rest
                                  (ground (arith, high, length-append seen kept))
                                  (ground (arith, enough, length-append seen kept)),
                              on_answer,
                            )
                            (ap (window max_count req) (append_assoc seen kept rest)))
                    | inr few ↦ rw (few, on_answer) (more (inr (ground (arith, few))))
                  ])
          ])

  -- If the cache answers a block that is ready with its traces, a ready block stays ready when another
  -- is asked for, and all blocks are ready, then `fetch_traces` returns the window of the
  -- wanted traces of all the blocks: with a count, those behind the first `after`, at most `count`
  -- of them; with none, all those behind the first `after` if they are fewer than the maximum, and
  -- else the error. The count is the one that `filter` passes on.
  pub fetch_traces-window :
      (hs : List H256) (s : S)
      → AllReady Ready hs s
      → (fetch_traces requester max_count req hs limit s).0
        ≡ window max_count req (wanted req traces_of hs)
  unfolding fetch_traces
  fetch_traces-window hs s ready =
      ap (λ t. loop_on hs 0 t s) (sym (drop_all after [] (omega arith)))
      ∙ fetch_lem hs [] s ready (inl (omega arith))
