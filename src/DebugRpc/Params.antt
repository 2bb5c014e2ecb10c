-- ===== src/DebugRpc/Params.antt =====
-- client/rpc/debug/src/lib.rs, `DebugHandler::handle_params`: what is traced, and how.
pub mod Reading
use edgeware_node.Prelude.{ℕ, Option, none, some, Bool, false, ◌||◌, ◌==◌, if◌then◌else◌}
use edgeware_node.Prelude.Text.{Bytes, bytes, bytes_eq}
use edgeware_node.Prelude.Results.{ok, err}
use edgeware_node.DebugRpc.Types.{
  TraceParams, TracerInput, TraceType, RpcResult, javascript_unavailable,
}

abbrev pub blockscout_js_code_hash : ℕ
blockscout_js_code_hash = 0x94d9f08796f91eb13a2e82a6066882f7

abbrev pub blockscout_js_code_hash_v2 : ℕ
blockscout_js_code_hash_v2 = 0x89db13694675692951673a1e6e18ff02

unwrap_or_false : Option Bool → Bool
unwrap_or_false none = false
unwrap_or_false (some b) = b

tracer_of : ℕ → Bytes → Option TracerInput
tracer_of hash tracer =
    if hash == blockscout_js_code_hash || hash == blockscout_js_code_hash_v2
    then some TracerInput.blockscout
    else if bytes_eq tracer (bytes "callTracer")
    then some TracerInput.call_tracer
    else none

-- With a tracer.
traced_by : ℕ → Option TracerInput → RpcResult (TracerInput × TraceType)
traced_by hash (some tracer) = ok (tracer, TraceType.call_list)
traced_by hash none = err (javascript_unavailable hash)

params_with : (Bytes → ℕ) → TraceParams → Option Bytes → RpcResult (TracerInput × TraceType)
params_with twox_128 params (some tracer) =
    traced_by (twox_128 tracer) (tracer_of (twox_128 tracer) tracer)
params_with twox_128 params none = ok (
  TracerInput.none,
  TraceType.raw (unwrap_or_false params.disable_storage) (unwrap_or_false params.disable_memory)
      (unwrap_or_false params.disable_stack),
)

-- `twox_128` is the library's hash of the tracer's text.
unfoldable pub handle_params :
    (Bytes → ℕ) → Option TraceParams → RpcResult (TracerInput × TraceType)
unfolding unwrap_or_false tracer_of traced_by params_with bytes_eq
handle_params twox_128 (some params) = params_with twox_128 params params.tracer
handle_params twox_128 none = ok (TracerInput.none, TraceType.raw false false false)
