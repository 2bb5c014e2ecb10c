-- ===== src/DebugRpc/Handler/Forms.antt =====
-- The form of an answer, from what the request itself says.
use edgeware_node.Prelude.{◌≡◌, subst, ◌⊎◌, inl, inr, List, Option, none, some, ℕ}
use edgeware_node.Prelude.Text.{Bytes}
use edgeware_node.Tracing.Types.{H256}
use edgeware_node.Tracing.CallTracer.{CallTracerCall}
use edgeware_node.Tracing.Raw.State.{RawStepLog}
use edgeware_node.DebugRpc.Params.Reading.{
  IsBlockscout, IsCallTracer, tracer_in, ReadAs, handle_params-ReadAs,
}
use edgeware_node.DebugRpc.Inputs.{Client}
use edgeware_node.DebugRpc.{handle_transaction_request}
use edgeware_node.DebugRpc.Types
use edgeware_node.DebugRpc.Types.{
  TraceParams, TracerInput, TraceType, Response, TransactionTrace, Run,
}
use edgeware_node.DebugRpc.Handler.Kinds.{Matches, transaction_request-Matches}

-- Without a tracer the steps; for Blockscout's tracer a list of calls; for "callTracer" one nested
-- call. No other text is answered.
abbrev pub HasForm : (Bytes → ℕ) → Option Bytes → Response → Type 0
HasForm twox_128 none r =
    (gas : ℕ) × (value : Bytes) × (logs : List RawStepLog) × (r
      ≡ Response.single (TransactionTrace.raw gas value logs))
HasForm twox_128 (some t) r =
    (IsBlockscout (twox_128 t)
      × ((calls : List Types.Call) × (r ≡ Response.single (TransactionTrace.call_list calls))))
    ⊎ (IsCallTracer twox_128 t
        × ((c : CallTracerCall) × (r
              ≡ Response.single (TransactionTrace.call_list_nested (Types.Call.call_tracer c)))))

ReadAs-HasForm :
    (twox_128 : Bytes → ℕ) (t : Option Bytes) (x : TracerInput × TraceType) (r : Response)
    → ReadAs twox_128 t x
    → Matches x r
    → HasForm twox_128 t r
ReadAs-HasForm twox_128 none x r (s, m, k, e) h = subst (λ y. Matches y r) e h
ReadAs-HasForm twox_128 (some t) x r (inl (scout, e)) h = inl (scout, subst (λ y. Matches y r) e h)
ReadAs-HasForm twox_128 (some t) x r (inr (named, e)) h = inr (named, subst (λ y. Matches y r) e h)

module _ {Extrinsic : Type 0} (client : Client Extrinsic) (twox_128 : Bytes → ℕ) where
  -- A transaction that is traced is answered in the form of its request: without a tracer with the
  -- steps, for a text with one of Blockscout's two hashes with a list of calls, for the text
  -- "callTracer" with one nested call; a request with another text is not answered.
  pub transaction_request-HasForm :
      (h : H256) (params : Option TraceParams) (r : Response)
      → handle_transaction_request client twox_128 h params ≡ Run.ok r
      → HasForm twox_128 (tracer_in params) r
  transaction_request-HasForm h params r e =
      let (x, read, matches) = transaction_request-Matches client twox_128 h params r e in
      ReadAs-HasForm twox_128 (tracer_in params) x r (handle_params-ReadAs twox_128 params x read)
        matches

  -- The tracer that is asked for is none, one of Blockscout's or "callTracer".
  abbrev pub IsReadable : Option Bytes → Type 0
  IsReadable none = Unit
  IsReadable (some t) = IsBlockscout (twox_128 t) ⊎ IsCallTracer twox_128 t

  -- The tracer that is asked for is "callTracer".
  abbrev pub AsksCallTracer : Option Bytes → Type 0
  AsksCallTracer none = ⊥
  AsksCallTracer (some t) = IsCallTracer twox_128 t
