-- ===== src/TraceRpc.antt =====
-- client/rpc/trace: the `trace_filter` endpoint and the task that caches the traces of blocks.
pub mod Errors
pub mod Cache
pub mod Filter
pub mod Requests
pub mod BlockTraces
