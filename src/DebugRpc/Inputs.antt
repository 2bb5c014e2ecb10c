-- ===== src/DebugRpc/Inputs.antt =====
-- client/rpc/debug/src/lib.rs: what the two requests read before they trace anything.
-- The client, the runtime API, the Frontier backend and the storage overrides are libraries:
-- `Client` holds what they answer. The events that the runtime emits during a replay are an answer
-- beside its result.
use edgeware_node.Prelude.{ℕ, List, [], Option, none, some, get_elem?}
use edgeware_node.Prelude.Results.{Result, ok, err, ◌>>=◌, ok_or}
use edgeware_node.Tracing.Types.{H256}
use edgeware_node.Tracing.Events.{Event}
use edgeware_node.TraceRpc.Filter.{RequestBlockId, RequestBlockTag}
use edgeware_node.TraceRpc.BlockTraces.{Header}
use edgeware_node.Ethereum.{LegacyTransaction, TransactionV2}
use edgeware_node.DebugRpc.Types
use edgeware_node.DebugRpc.Types.{BlockId, RpcResult}

-- What a schema of the storage overrides answers: the block's transactions, and the hashes of the
-- transactions whose statuses it knows.
pub record Stored : Type 0 where
  pub current_block : Option (List TransactionV2)
  pub current_transaction_statuses : Option (List H256)

abbrev pub Replayed : Type 0
Replayed = Result (Result (Unit {0}) (Unit {0})) (Unit {0}) × List Event

pub record Client (Extrinsic : Type 0) : Type 0 where
  pub best_number : ℕ
  -- `load_hash`; an error is passed on by its number
  pub load_hash : H256 → Result (Option BlockId) ℕ
  -- `load_transactions`: the block's hash and the index
  pub load_transactions : H256 → Result (Option (H256 × ℕ)) ℕ
  pub header : BlockId → Result (Option Header) (Unit {0})
  pub schema : BlockId → Option Stored
  pub body : BlockId → Result (Option (List Extrinsic)) (Unit {0})
  pub api_version : H256 → Result (Option ℕ) (Unit {0})
  pub initialize_block : H256 → Header → Result (Unit {0}) (Unit {0})
  pub trace_block : H256 → List Extrinsic → List H256 → Replayed
  pub trace_transaction : H256 → List Extrinsic → TransactionV2 → Replayed
  pub trace_transaction_before_version_4 : H256 → List Extrinsic → LegacyTransaction → Replayed

loaded : Result (Option BlockId) ℕ → RpcResult BlockId
loaded (ok (some id)) = ok id
loaded (ok none) = err Types.block_hash_not_found
loaded (err e) = err (Types.backend e)

header_or : Result (Option Header) (Unit {0}) → RpcResult Header
header_or (ok (some h)) = ok h
header_or (ok none) = err Types.block_header_not_found
header_or (err e) = err Types.block_header_not_found

extrinsics_or :
    {Extrinsic : Type 0} → Result (Option (List Extrinsic)) (Unit {0}) → RpcResult (List Extrinsic)
extrinsics_or (ok (some exts)) = ok exts
extrinsics_or (ok none) = ok []
extrinsics_or (err e) = err Types.read_failed

unwrap_or_default : Option (List H256) → List H256
unwrap_or_default none = []
unwrap_or_default (some xs) = xs

transaction_or : Result (Option (H256 × ℕ)) ℕ → RpcResult (H256 × ℕ)
transaction_or (ok (some found)) = ok found
transaction_or (ok none) = err Types.transaction_not_found
transaction_or (err e) = err (Types.backend e)

version_or : Result (Option ℕ) (Unit {0}) → RpcResult ℕ
version_or (ok (some version)) = ok version
version_or (ok none) = err Types.version_call_failed
version_or (err e) = err Types.version_call_failed

transaction_in : Option (List TransactionV2) → ℕ → RpcResult TransactionV2
transaction_in none index = err Types.runtime_call_failed
transaction_in (some transactions) index =
    ok_or (get_elem? transactions index) Types.runtime_call_failed

module _ {Extrinsic : Type 0} (client : Client Extrinsic) where
  unfoldable pub extrinsics_of : BlockId → RpcResult (List Extrinsic)
  unfolding extrinsics_or
  extrinsics_of id = extrinsics_or (client.body id)

  unfoldable pub reference_of : RequestBlockId → RpcResult BlockId
  unfolding loaded
  reference_of (RequestBlockId.number n) = ok (BlockId.number n)
  reference_of (RequestBlockId.tag RequestBlockTag.latest) = ok (BlockId.number client.best_number)
  reference_of (RequestBlockId.tag RequestBlockTag.earliest) = ok (BlockId.number 0)
  reference_of (RequestBlockId.tag RequestBlockTag.pending) = err Types.pending_not_supported
  reference_of (RequestBlockId.hash h) = loaded (client.load_hash h)

  -- `handle_block_request` up to the test for an empty block.
  unfoldable pub block_of : RequestBlockId → RpcResult (BlockId × Header × List H256)
  unfolding header_or unwrap_or_default
  block_of request_block_id = reference_of request_block_id >>= λ id.
      header_or (client.header id) >>= λ header.
      ok_or (client.schema id) (Types.no_storage_override id) >>= λ schema.
      ok (id, header, unwrap_or_default schema.current_transaction_statuses)

  -- `handle_transaction_request` up to the transaction: with the version of the runtime API, the
  -- header and the extrinsics.
  unfoldable pub transaction_of : H256 → RpcResult (ℕ × Header × List Extrinsic × TransactionV2)
  unfolding transaction_or loaded header_or extrinsics_of version_or transaction_in
  transaction_of transaction_hash =
      transaction_or (client.load_transactions transaction_hash) >>= λ found.
      loaded (client.load_hash (found.0)) >>= λ id. header_or (client.header id) >>= λ header.
      extrinsics_of id >>= λ exts. version_or (client.api_version header.parent_hash) >>= λ version.
      ok_or (client.schema id) (Types.no_storage_override id) >>= λ schema.
      transaction_in schema.current_block (found.1) >>= λ transaction.
      ok (version, header, exts, transaction)
