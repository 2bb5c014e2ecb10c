-- ===== src/Tests.antt =====
-- Tests: the theorems at concrete inputs.
mod Tracing
mod Raw
mod CallTracer
mod Debug
mod Pool
mod Cache
mod Filter
mod Treasury
mod Runtime
mod Node
