-- ===== src/Runtime/TraceApi.antt =====
-- node/runtime/src/lib.rs, `DebugRuntimeApi`: replaying a block's extrinsics with tracing.
-- `Executive` is Substrate's: `Machine` says what applying an extrinsic does to the state, and which
-- events the EVM emits meanwhile. Outside `EvmTracer::trace` nobody listens to them.
pub mod Agreement
use edgeware_node.Prelude.{ℕ, List, [], ◌∷◌, ◌++◌, Bool, ◌||◌, ◌==◌, if◌then◌else◌}
use edgeware_node.Prelude.Results.{Result, ok, err}
use edgeware_node.Tracing.Types.{H256}
use edgeware_node.Tracing.Events.{Event}
use edgeware_node.Ethereum.{TransactionV2}

-- An extrinsic's call: `Call::Ethereum(transact { transaction })`, or another one.
pub data Extrinsic (Other : Type 0) : Type 0 where
  ethereum : TransactionV2 → Extrinsic Other
  other : Other → Extrinsic Other

-- Also the hash of a transaction, Keccak-256 of its RLP form, and the equality of transactions.
pub record Machine (State Other : Type 0) : Type 0 where
  pub apply_extrinsic : Extrinsic Other → State → State
  pub emitted : Extrinsic Other → State → List Event
  pub transaction_hash : TransactionV2 → H256
  pub is_same : TransactionV2 → TransactionV2 → Bool

pub data DispatchError : Type 0 where
  -- "Failed to find Ethereum transaction among the extrinsics."
  not_found : DispatchError
  -- "Missing `evm-tracing` compile time feature flag."
  missing_feature : DispatchError

unfoldable pub contains : List H256 → H256 → Bool
contains [] h = Bool.false
contains (x ∷ xs) h = x == h || contains xs h

module _ {State Other : Type 0} (m : Machine State Other) where
  find_and_trace :
      State → TransactionV2 → List (Extrinsic Other) → Result (Unit {0}) DispatchError × List Event
  find_and_trace s traced [] = (err not_found, [])
  find_and_trace s traced (Extrinsic.ethereum transaction ∷ exts) =
      let ext = Extrinsic.ethereum transaction in
      let rest = find_and_trace (m.apply_extrinsic ext s) traced exts in
      if m.is_same transaction traced then (ok tt, m.emitted ext s) else rest
  find_and_trace s traced (Extrinsic.other call ∷ exts) =
      find_and_trace (m.apply_extrinsic (Extrinsic.other call) s) traced exts

  -- The Boolean is the feature `evm-tracing`.
  unfoldable pub trace_transaction :
      Bool
      → State
      → List (Extrinsic Other)
      → TransactionV2
      → Result (Unit {0}) DispatchError × List Event
  unfolding find_and_trace
  trace_transaction evm_tracing s extrinsics traced_transaction =
      if evm_tracing
      then find_and_trace s traced_transaction extrinsics
      else (err missing_feature, [])

  unfoldable pub apply_and_trace : State → List H256 → List (Extrinsic Other) → List Event
  apply_and_trace s known [] = []
  apply_and_trace s known (Extrinsic.ethereum transaction ∷ exts) =
      let ext = Extrinsic.ethereum transaction in
      let rest = apply_and_trace (m.apply_extrinsic ext s) known exts in
      if contains known (m.transaction_hash transaction)
      then Event.call_list_new ∷ (m.emitted ext s ++ rest)
      else rest
  apply_and_trace s known (Extrinsic.other call ∷ exts) =
      apply_and_trace (m.apply_extrinsic (Extrinsic.other call) s) known exts

  unfoldable pub trace_block :
      Bool
      → State
      → List (Extrinsic Other)
      → List H256
      → Result (Unit {0}) DispatchError × List Event
  trace_block evm_tracing s extrinsics known_transactions =
      if evm_tracing
      then (ok tt, apply_and_trace s known_transactions extrinsics)
      else (err missing_feature, [])
