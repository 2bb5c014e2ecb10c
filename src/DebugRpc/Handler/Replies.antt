-- ===== src/DebugRpc/Handler/Replies.antt =====
-- The `unreachable!()` of the two handlers is not reached.
use edgeware_node.Prelude.{ℕ, ◌≡◌, ◌≢◌, ◌⊎◌, inl, inr, List, [], map, Option}
use edgeware_node.Prelude.Text.{Bytes}
use edgeware_node.Tracing.Types.{H256}
use edgeware_node.TraceRpc.Filter.{RequestBlockId}
use edgeware_node.DebugRpc.Inputs.{Client}
use edgeware_node.DebugRpc.{nested_trace, handle_block_request, handle_transaction_request}
use edgeware_node.DebugRpc.Types.{
  TraceParams, TracerInput, TraceType, RequesterInput, Response, TransactionTrace, Run, ◌>>=◌, lift,
}
use edgeware_node.DebugRpc.Handler.{
  Requester, send_failed, dropped, answered, single_or_unreachable, block_or_unreachable, received,
  trace_transaction, trace_block, joined, task,
}
use edgeware_node.DebugRpc.Handler.Kinds.{
  Yields, Yields-mono, Matches, IsBlockAnswer, IsAnswerTo, transaction_request-IsAnswerTo,
  block_request-IsBlockAnswer,
}

abbrev IsSingle : Response → Type 0
IsSingle r = (trace : TransactionTrace) × (r ≡ Response.single trace)

abbrev IsBlock : Response → Type 0
IsBlock r = (traces : List TransactionTrace) × (r ≡ Response.block traces)

Matches-IsSingle :
    (traced_as : TracerInput × TraceType) (r : Response) → Matches traced_as r → IsSingle r
Matches-IsSingle (tracer, TraceType.raw s m k) r (gas, value, logs, e) = (_, e)
Matches-IsSingle (TracerInput.blockscout, TraceType.call_list) r (calls, e) = (_, e)
Matches-IsSingle (TracerInput.call_tracer, TraceType.call_list) r (c, e) = (_, e)
Matches-IsSingle (TracerInput.none, TraceType.call_list) r h = absurd h
Matches-IsSingle (tracer, TraceType.block) r h = absurd h

single_lem :
    (r : Run Response) → Yields IsSingle r → (lift (joined r) >>= single_or_unreachable) ≢ Run.panic
unfolding joined single_or_unreachable
single_lem (Run.ok a) (trace, e) = rw e (λ p. absurd (cc p))
single_lem (Run.err a) h = λ p. absurd (cc p)
single_lem Run.panic h = λ p. absurd (cc p)

block_lem :
    (r : Run Response) → Yields IsBlock r → (lift (joined r) >>= block_or_unreachable) ≢ Run.panic
unfolding joined block_or_unreachable
block_lem (Run.ok a) (traces, e) = rw e (λ p. absurd (cc p))
block_lem (Run.err a) h = λ p. absurd (cc p)
block_lem Run.panic h = λ p. absurd (cc p)

-- The channel to the task, which may also be closed.
abbrev pub IsServedBy : {Extrinsic : Type 0} → Client Extrinsic → (Bytes → ℕ) → Requester → Type 0
IsServedBy client twox_128 requester =
    (input : RequesterInput) (params : Option TraceParams)
    → (requester input params ≡ send_failed)
      ⊎ ((requester input params ≡ dropped)
          ⊎ (requester input params ≡ answered (task client twox_128 input params)))

module _ {Extrinsic : Type 0} (client : Client Extrinsic) (twox_128 : Bytes → ℕ)
    (requester : Requester) (served : IsServedBy client twox_128 requester) where
  transaction_no_panic :
      (h : H256) (params : Option TraceParams) → trace_transaction requester h params ≢ Run.panic
  unfolding trace_transaction received task
  transaction_no_panic h params = elim (served (RequesterInput.transaction h) params) [
    | inl failed ↦ rw failed (λ p. absurd (cc p))
    | inr (inl closed) ↦ rw closed (λ p. absurd (cc p))
    | inr (inr found) ↦ rw found (
        single_lem (handle_transaction_request client twox_128 h params) (
          Yields-mono (IsAnswerTo client twox_128 params) IsSingle
            (λ r answer. Matches-IsSingle (answer.0) r (answer.2)) _
            (transaction_request-IsAnswerTo client twox_128 h params)))
  ]

  block_no_panic :
      (id : RequestBlockId) (params : Option TraceParams)
      → trace_block requester id params ≢ Run.panic
  unfolding trace_block received task
  block_no_panic id params = elim (served (RequesterInput.block id) params) [
    | inl failed ↦ rw failed (λ p. absurd (cc p))
    | inr (inl closed) ↦ rw closed (λ p. absurd (cc p))
    | inr (inr found) ↦ rw found (
        block_lem (handle_block_request client twox_128 id params) (
          Yields-mono (IsBlockAnswer client twox_128 id params) IsBlock
            (λ r answer. elim answer [
              | inl (empty, (x, read, at)) ↦ ([], at)
              | inr (e, (calls, at)) ↦ (map nested_trace calls, at)
            ])
            _ (block_request-IsBlockAnswer client twox_128 id params)))
  ]

  -- Neither handler panics, whatever is asked, if the channel to the task may be closed but
  -- otherwise delivers the task's answers: the answer to a transaction is a single trace and the
  -- answer to a block is a list, and a panic of the replay is an error.
  pub trace-no_panic :
      (h : H256) (id : RequestBlockId) (params : Option TraceParams)
      → (trace_transaction requester h params ≢ Run.panic)
        × (trace_block requester id params ≢ Run.panic)
  trace-no_panic h id params = (transaction_no_panic h params, block_no_panic id params)
