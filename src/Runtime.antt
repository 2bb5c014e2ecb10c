-- ===== src/Runtime.antt =====
-- node/runtime/src: the runtime APIs that the tracing and the pool RPCs call, and the parts of the
-- configuration that compute something.
pub mod TraceApi
pub mod PoolApi
pub mod Proxy
pub mod Precompiles
pub mod Fees
pub mod Gas
pub mod Migration
