-- ===== src/TraceRpc/Filter/Batches.antt =====
-- Every batch that `filter` starts it stops, on each of its paths, for any requester.
use mathlib.Core.List.{append-nil}
use edgeware_node.Prelude.{ℕ, ◌≡◌, refl, sym, ap, ◌∙◌, ◌⊎◌, inl, inr, List, [], ◌∷◌, ◌++◌}
use edgeware_node.Prelude.Results.{Result, ok, err}
use edgeware_node.Prelude.Int.{ℤ, sub_ℕ}
use edgeware_node.Tracing.Types.{H256, TransactionTrace}
use edgeware_node.TraceRpc.Errors.{RpcResult, Traces}
use edgeware_node.TraceRpc.Filter.{
  FilterRequest, Requester, Client, Round, done, next, on_round, on_answer, fetch_blocks,
  fetch_traces, run_batch, prepare, filter, unwrap_or,
}

Result-cases {ℓ} :
    {A E : Type ℓ} (r : Result A E) → ((e : E) × (r ≡ err e)) ⊎ ((a : A) × (r ≡ ok a))
Result-cases (ok a) = inr (a, refl)
Result-cases (err e) = inl (e, refl)

-- The batch that has been started, if any.
abbrev pub own_batch : RpcResult ℕ → List ℕ
own_batch (ok batch_id) = batch_id ∷ []
own_batch (err e) = []

-- The batch that a request starts, if it gets so far.
abbrev pub started_batch : {S : Type 0} → Requester S → RpcResult (List H256 × ℕ) → S → List ℕ
started_batch requester (err e) s = []
started_batch requester (ok (hashes, limit)) s = own_batch ((requester.start_batch hashes s).0)

module _ {S : Type 0} (requester : Requester S) (client : Client) (max_count : ℕ)
    (stopped : S → List ℕ)
    (starts : (hashes : List H256) (s : S)
      → stopped ((requester.start_batch hashes s).1) ≡ stopped s)
    (asks : (h : H256) (s : S) → stopped ((requester.get_traces h s).1) ≡ stopped s)
    (stops : (batch_id : ℕ) (s : S)
      → stopped (requester.stop_batch batch_id s) ≡ stopped s ++ batch_id ∷ []) where
  module _ (req : FilterRequest) (limit : ℕ) (again : ℤ → List TransactionTrace → S → Traces × S)
      (same : (a : ℤ) (t : List TransactionTrace) (s : S)
        → stopped ((again a t s).1) ≡ stopped s) where
    on_round-stopped :
        (amount : ℤ) (s : S) (r : Round)
        → stopped ((on_round max_count req limit again amount s r).1) ≡ stopped s
    unfolding on_round
    on_round-stopped amount s (done result) = refl
    on_round-stopped amount s (next traces) = same amount traces s

    on_answer-stopped :
        (amount : ℤ) (traces : List TransactionTrace) (answer : Traces × S)
        → stopped ((on_answer max_count req limit again amount traces answer).1)
          ≡ stopped (answer.1)
    unfolding on_answer
    on_answer-stopped amount traces (err e, s) = refl
    on_answer-stopped amount traces (ok found, s) = on_round-stopped _ s _

  fetch_blocks-stopped :
      (req : FilterRequest) (limit : ℕ) (hs : List H256) (amount : ℤ)
      (traces : List TransactionTrace) (s : S)
      → stopped ((fetch_blocks requester max_count req limit hs amount traces s).1) ≡ stopped s
  unfolding fetch_blocks
  fetch_blocks-stopped req limit [] amount traces s = refl
  fetch_blocks-stopped req limit (h ∷ hs) amount traces s =
      on_answer-stopped req limit (fetch_blocks requester max_count req limit hs)
        (fetch_blocks-stopped req limit hs) amount traces (requester.get_traces h s)
      ∙ asks h s

  run_batch-stopped :
      (req : FilterRequest) (hashes : List H256) (limit : ℕ) (s : S) (begun : RpcResult ℕ × S)
      → stopped (begun.1) ≡ stopped s
      → stopped ((run_batch requester client max_count req hashes limit begun).1)
        ≡ stopped s ++ own_batch (begun.0)
  unfolding run_batch fetch_traces
  run_batch-stopped req hashes limit s (err e, t) same = same ∙ sym (append-nil (stopped s))
  run_batch-stopped req hashes limit s (ok batch_id, t) same =
      stops batch_id ((fetch_traces requester max_count req hashes limit t).1)
      ∙ ap (λ l. l ++ batch_id ∷ [])
          (fetch_blocks-stopped req limit hashes (sub_ℕ 0 (unwrap_or req.after 0)) [] t ∙ same)

  pub filter-stopped :
      (req : FilterRequest) (s : S)
      → stopped ((filter requester client max_count req s).1)
        ≡ stopped s ++ started_batch requester (prepare client max_count req) s
  unfolding filter
  filter-stopped req s = elim (Result-cases (prepare client max_count req)) [
    | inl (e, failed) ↦ rw (failed, filter) (sym (append-nil (stopped s)))
    | inr ((hashes, limit), ready) ↦
        rw (ready, filter)
          (run_batch-stopped req hashes limit s (requester.start_batch hashes s) (starts hashes s))
  ]
