-- ===== src/Tracing.antt =====
-- client/evm-tracing and primitives/rpc/evm-tracing-events: from the events that the runtime emits
-- to the traces that the RPC returns.
pub mod Types
pub mod Events
pub mod Opcodes
pub mod Entries
pub mod CallList
pub mod Raw
pub mod Formatters
pub mod CallTracer
