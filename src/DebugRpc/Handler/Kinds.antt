-- ===== src/DebugRpc/Handler/Kinds.antt =====
-- An answer has the form that the request asks for.
use edgeware_node.Prelude.{
  ℕ, ◌≡◌, refl, sym, ap, ◌∙◌, arith, subst, ◌⊎◌, inl, inr, List, [], ◌∷◌, map, Option,
}
use edgeware_node.Prelude.Text.{Bytes}
use edgeware_node.Prelude.Results
use edgeware_node.Tracing.Types.{H256}
use edgeware_node.Tracing.CallList
use edgeware_node.Tracing.Raw
use edgeware_node.Tracing.Raw.State
use edgeware_node.TraceRpc.BlockTraces.{Header}
use edgeware_node.TraceRpc.Filter.{RequestBlockId}
use edgeware_node.DebugRpc.Params.{handle_params}
use edgeware_node.DebugRpc.Inputs.{Client, block_of, transaction_of, extrinsics_of}
use edgeware_node.DebugRpc.{
  nested_trace, block_replay, transaction_replay, transaction_with, Traced, block_answer,
  block_format, block_with, handle_block_request, transaction_answer, transaction_format, last_of,
  call_tracer_traces, call_list_listener, format_raw, handle_transaction_request,
}
use edgeware_node.DebugRpc.Types
use edgeware_node.DebugRpc.Types.{
  TraceParams, TracerInput, TraceType, RequesterInput, Response, TransactionTrace, RpcResult, Run,
  ◌>>=◌, lift, or_panic,
}
use edgeware_node.DebugRpc.Handler.{joined}
use edgeware_node.Tracing.CallTracer.{CallTracerCall}
use edgeware_node.Tracing.Raw.State.{RawStepLog}

-- What a call returns, if it does, satisfies `P`.
abbrev pub Yields : {A : Type 0} → (A → Type 0) → Run A → Type 0
Yields P (Run.ok a) = P a
Yields P (Run.err e) = Unit
Yields P Run.panic = Unit

module _ {A B : Type 0} (P : B → Type 0) where
  bind-Yields :
      (r : Run A) (f : A → Run B) → ((a : A) → r ≡ Run.ok a → Yields P (f a)) → Yields P (r >>= f)
  bind-Yields (Run.ok a) f h = h a refl
  bind-Yields (Run.err e) f h = tt
  bind-Yields Run.panic f h = tt

Yields-ok : {A : Type 0} (P : A → Type 0) (r : Run A) (a : A) → Yields P r → r ≡ Run.ok a → P a
Yields-ok P r a h e = subst (Yields P) e h

joined-lift : {A : Type 0} (r : RpcResult A) → joined (lift r) ≡ r
unfolding joined
joined-lift (Results.ok a) = refl
joined-lift (Results.err e) = refl

lift-ok : {A : Type 0} (r : RpcResult A) (a : A) → lift r ≡ Run.ok a → r ≡ Results.ok a
unfolding joined
lift-ok r a e = sym (joined-lift r) ∙ ap joined e

pub Yields-mono :
    {A : Type 0} (P Q : A → Type 0) → ((a : A) → P a → Q a) → (r : Run A) → Yields P r → Yields Q r
Yields-mono P Q f (Run.ok a) h = f a h
Yields-mono P Q f (Run.err e) h = tt
Yields-mono P Q f Run.panic h = tt

-- The forms of an answer.
abbrev pub Matches : TracerInput × TraceType → Response → Type 0
Matches (tracer, TraceType.raw s m k) r =
    (gas : ℕ) × (value : Bytes) × (logs : List RawStepLog) × (r
      ≡ Response.single (TransactionTrace.raw gas value logs))
Matches (TracerInput.blockscout, TraceType.call_list) r =
    (calls : List Types.Call) × (r ≡ Response.single (TransactionTrace.call_list calls))
Matches (TracerInput.call_tracer, TraceType.call_list) r =
    (c : CallTracerCall) × (r
      ≡ Response.single (TransactionTrace.call_list_nested (Types.Call.call_tracer c)))
Matches (TracerInput.none, TraceType.call_list) r = ⊥
Matches (tracer, TraceType.block) r = ⊥

module _ {Extrinsic : Type 0} (client : Client Extrinsic) (twox_128 : Bytes → ℕ) where
  transaction_format-Matches :
      (tracer : TracerInput) (proxy : CallList.Listener)
      → Yields
          (λ trace. Matches (tracer, TraceType.call_list) (Response.single trace))
          (transaction_format tracer proxy)
  unfolding transaction_format
  transaction_format-Matches TracerInput.none proxy = tt
  transaction_format-Matches TracerInput.blockscout proxy = ground arith
  transaction_format-Matches TracerInput.call_tracer proxy =
      bind-Yields _ (call_tracer_traces proxy) _
        (λ res e. bind-Yields _ (or_panic (last_of res)) _ (λ x at. (x, refl)))

  transaction_answer-Matches :
      (tracer : TracerInput) (mode : TraceType) (f : Traced)
      → Yields (Matches (tracer, mode)) (transaction_answer mode tracer f)
  unfolding transaction_answer format_raw
  transaction_answer-Matches tracer (TraceType.raw s m k) f =
      bind-Yields _ (or_panic (Raw.events (f.1) (Raw.State.new s m k))) _
        (λ proxy e. bind-Yields _ (lift (f.0)) _ (λ done at. (_, _, _, refl)))
  transaction_answer-Matches tracer TraceType.block f = tt
  transaction_answer-Matches tracer TraceType.call_list f =
      bind-Yields _ (call_list_listener f) _ (λ proxy e.
        bind-Yields (Matches (tracer, TraceType.call_list)) (transaction_format tracer proxy)
          (λ response. Run.ok (Response.single response))
          (λ trace at.
            Yields-ok _ (transaction_format tracer proxy) trace
              (transaction_format-Matches tracer proxy) at))

  -- An answered transaction request was read with success, and the answer is of its kind.
  abbrev pub IsAnswerTo : Option TraceParams → Response → Type 0
  IsAnswerTo params r =
      (traced_as : TracerInput × TraceType) × (handle_params twox_128 params ≡ Results.ok traced_as)
      × Matches traced_as r

  pub transaction_request-IsAnswerTo :
      (h : H256) (params : Option TraceParams)
      → Yields (IsAnswerTo params) (handle_transaction_request client twox_128 h params)
  unfolding handle_transaction_request transaction_with
  transaction_request-IsAnswerTo h params =
      bind-Yields _ (lift (handle_params twox_128 params)) _ (λ traced_as e.
        bind-Yields _ (lift (transaction_of client h)) _ (λ inputs e2.
          Yields-mono (Matches traced_as) (IsAnswerTo params)
            (λ r matches. (traced_as, lift-ok _ traced_as e, matches))
            (transaction_answer (traced_as.1) (traced_as.0)
              (transaction_replay client (inputs.0) (inputs.1) (inputs.2) (inputs.3)))
            (transaction_answer-Matches (traced_as.0) (traced_as.1) _)))

  -- The same, of the answer.
  pub transaction_request-Matches :
      (h : H256) (params : Option TraceParams) (r : Response)
      → handle_transaction_request client twox_128 h params ≡ Run.ok r
      → (traced_as : TracerInput × TraceType) × (handle_params twox_128 params
          ≡ Results.ok traced_as)
        × Matches traced_as r
  transaction_request-Matches h params r e =
      Yields-ok (IsAnswerTo params) _ r (transaction_request-IsAnswerTo h params) e

  -- The block is found, and has no Ethereum transactions.
  abbrev pub IsEmptyBlock : RequestBlockId → Type 0
  IsEmptyBlock id =
      (b : Types.BlockId) × (header : Header) × (block_of client id ≡ Results.ok (b, header, []))

  abbrev pub IsBlockAnswer : RequestBlockId → Option TraceParams → Response → Type 0
  IsBlockAnswer id params r =
      (IsEmptyBlock id
        × ((traced_as : TracerInput × TraceType) × (handle_params twox_128 params
              ≡ Results.ok traced_as)
            × (r ≡ Response.block [])))
      ⊎ ((handle_params twox_128 params ≡ Results.ok (TracerInput.call_tracer, TraceType.call_list))
          × ((calls : List CallTracerCall) × (r ≡ Response.block (map nested_trace calls))))

  block_format-call_tracer :
      (tracer : TracerInput) (proxy : CallList.Listener) (calls : List CallTracerCall)
      → block_format tracer proxy ≡ Run.ok calls
      → tracer ≡ TracerInput.call_tracer
  unfolding block_format
  block_format-call_tracer TracerInput.call_tracer proxy calls e = refl
  block_format-call_tracer TracerInput.blockscout proxy calls e = absurd (cc e)
  block_format-call_tracer TracerInput.none proxy calls e = absurd (cc e)

  block_answer-IsBlockAnswer :
      (id : RequestBlockId) (params : Option TraceParams) (tracer : TracerInput) (mode : TraceType)
      (f : Traced)
      → handle_params twox_128 params ≡ Results.ok (tracer, mode)
      → Yields (IsBlockAnswer id params) (block_answer mode tracer f)
  unfolding block_answer
  block_answer-IsBlockAnswer id params tracer (TraceType.raw s m k) f e = tt
  block_answer-IsBlockAnswer id params tracer TraceType.block f e = tt
  block_answer-IsBlockAnswer id params tracer TraceType.call_list f e =
      bind-Yields _ (call_list_listener f) _ (λ proxy started.
        bind-Yields _ (block_format tracer proxy) _ (λ calls at. inr (
          subst (λ t. handle_params twox_128 params ≡ Results.ok (t, TraceType.call_list))
              (block_format-call_tracer tracer proxy calls at) e,
          (calls, refl),
        )))

  block_with-IsBlockAnswer :
      (id : RequestBlockId) (params : Option TraceParams) (traced_as : TracerInput × TraceType)
      (inputs : Types.BlockId × Header × List H256)
      → block_of client id ≡ Results.ok inputs
      → handle_params twox_128 params ≡ Results.ok traced_as
      → Yields (IsBlockAnswer id params) (block_with client traced_as inputs)
  unfolding block_with
  block_with-IsBlockAnswer id params traced_as (b, header, []) found e =
      inl ((b, header, found), (traced_as, e, refl))
  block_with-IsBlockAnswer id params traced_as (b, header, h ∷ hs) found e =
      bind-Yields _ (lift (extrinsics_of client b)) _ (λ exts read.
        block_answer-IsBlockAnswer id params (traced_as.0) (traced_as.1)
          (block_replay client b header exts (h ∷ hs)) e)

  pub block_request-IsBlockAnswer :
      (id : RequestBlockId) (params : Option TraceParams)
      → Yields (IsBlockAnswer id params) (handle_block_request client twox_128 id params)
  unfolding handle_block_request
  block_request-IsBlockAnswer id params =
      bind-Yields _ (lift (handle_params twox_128 params)) _ (λ traced_as e.
        bind-Yields _ (lift (block_of client id)) _ (λ inputs e2.
          block_with-IsBlockAnswer id params traced_as inputs (lift-ok _ inputs e2)
            (lift-ok _ traced_as e)))

  pub block_request-call_tracer :
      (id : RequestBlockId) (params : Option TraceParams) (r : Response)
      → handle_block_request client twox_128 id params ≡ Run.ok r
      → IsBlockAnswer id params r
  block_request-call_tracer id params r e =
      Yields-ok (IsBlockAnswer id params) _ r (block_request-IsBlockAnswer id params) e
