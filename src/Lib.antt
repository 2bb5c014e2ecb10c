-- ===== src/Lib.antt =====
-- Edgeware: the tracing of Ethereum transactions, and the treasury's reward.
--
-- The parts and how they interact. The runtime replays a block with an instrumented EVM, which
-- emits events (primitives/rpc/evm-tracing-events). On the client a listener collects them
-- (client/evm-tracing/src/listeners/call_list.rs) and a formatter turns what it collected into a
-- response (client/evm-tracing/src/formatters). The endpoint `trace_filter` (client/rpc/trace)
-- asks for the traces of a range of blocks: its handler starts a batch at a cache task, fetches
-- the traces block by block, and stops the batch; the cache task traces each block once, for all
-- the batches that need it, and forgets it when they have expired. The endpoints of `debug`
-- (client/rpc/debug) replay one block or one transaction on demand, for three formats. The endpoints
-- of `txpool` (client/rpc/txpool) show the pool's Ethereum transactions, which the runtime picks out.
-- Apart from this a pallet (pallets/edge-treasury-reward) mints a reward for the treasury once in an
-- interval of blocks.
--
-- The files.
--   Prelude: shared names; Prelude/Tests Boolean tests, Prelude/Lists lists over the native numbers,
--     Prelude/Text texts as bytes, Prelude/Words the arithmetic of u32 and u64, Prelude/Int the
--     signed counter, Prelude/Results the type `Result`. BTreeMap: the map of the standard library,
--     as a list with rising keys.
--   Tracing/Events: the enums of primitives/rpc/evm-tracing-events/src. Tracing/Opcodes: the names
--     of the opcodes there (`opcodes_string` of runtime.rs).
--   Tracing/Types: client/evm-tracing/src/types and the entries of formatters/blockscout.rs.
--   Tracing/Entries: the contexts of call_list.rs and the entries made of them.
--   Tracing/CallList: `Listener` of call_list.rs; its methods keep their names (`finish_transaction`,
--     `gasometer_event`, `runtime_event`, `evm_event`, `insert_entry`, `pop_context_to_entry`,
--     `event`), and the arms of `evm_event` are functions of their own (`transact`, `call_event`,
--     `create_event`, `suicide_event`, `exit_event`). The vectors `context_stack` and `entries` are
--     lists with the last element first; the field `data` of a context is `input`.
--     CallList/Tree describes call trees, their events and their entries independently of the
--     listener; CallList/Blocks does so for a block's transactions, and CallList/Steps, Replay,
--     Fresh and Block compare the two; CallList/Transactions is about what the listener carries
--     from one transaction to the next.
--   Tracing/Raw: `Listener` of listeners/raw.rs; Raw/State its state, Raw/Changes how storage changes
--     reach the parent of a context, Raw/Filter `step_event_filter` and `from_evm_event` of
--     primitives/rpc/evm-tracing-events/src/runtime.rs. A panic is `none`.
--     CallList/Settled is about `finish_transaction` after whole transactions.
--   Tracing/Formatters: trace_filter.rs and blockscout.rs.
--   Tracing/CallTracer: call_tracer.rs. Its vector of items is a list with the last element first.
--     CallTracer/Levels describes trees of entries by themselves, Sorted what sorting does to their
--     items, Nesting and Whole what the loop does, Trees puts the call trees of a block in, and
--     Rounds is about items that are no tree.
--   TraceRpc/Cache: `CacheTask` of client/rpc/trace/src/lib.rs, one function for each handler; a
--     handler returns the new state and its effects on channels and tasks. TraceRpc/Cache/Loop is
--     the loop of `CacheTask::create`: `run` takes any sequence of requests, messages and ended
--     delays, which stands for every choice of `select!`. Cache/Counts, Sorted, Invariant, Runs,
--     Replies, Conservation, Waiting, Answered, Answers, Expiry and Kept hold the theorems.
--   TraceRpc/Requests: `CacheRequester`; Requests/Honesty, Quiet, Delivery, Answered, Served and Stops
--     put it, the handler and the cache task together, among the requests of others.
--   TraceRpc/BlockTraces: `CacheTask::cache_block`. TraceRpc/Filter: `Trace::filter` and what it
--     calls. TraceRpc/Errors: the errors of that file.
--   DebugRpc: client/rpc/debug/src/lib.rs; DebugRpc/Types its types and errors, DebugRpc/Params
--     `handle_params`, Params/Reading what it reads, DebugRpc/Inputs what the two requests read first, DebugRpc itself the two
--     requests and formatters/raw.rs, DebugRpc/Handler the task and the handlers. Handler/Kinds,
--     Forms and Replies are about the form of the answers, DebugRpc/Replay about their content.
--   Runtime: the runtime APIs of node/runtime/src/lib.rs, Runtime/TraceApi for the replays and
--     Runtime/PoolApi for the pool; TraceApi/Agreement compares the two replays. Runtime/Proxy is
--     `ProxyType`, Runtime/Fees `DealWithFees` and impls.rs, Runtime/Gas the gas mapping of that
--     file, Runtime/Precompiles its precompiles.rs, and
--     Runtime/Migration the `Web3AccountCreditMigration` of its migrations.rs.
--   NodeRpc: the servers and tasks of a node, by its APIs: node/cli-opt/src/lib.rs, node/rpc/src and
--     the part of node/cli/src/service.rs that calls them; NodeRpc/Served holds the theorem.
--   TxPool: client/rpc/txpool/src/lib.rs, and TxPool/Views the two views of
--     client/rpc-core/txpool/src/types; TxPool/Lookup and TxPool/Agreement hold the theorems.
--   Ethereum: the fields of a transaction that the code reads.
--   Treasury: the pallet. Tests: the theorems at concrete inputs.
--
-- Bounds and fuel. The loops of the code are over lists, so that only two definitions need fuel:
-- `words_in`, which cuts a memory into chunks, where the number of bytes is enough, since each chunk
-- takes at least one, and more gives the same words; and `nest` of the call tracer, where the number
-- of items is enough, since each round pops one. A u32, u64, u128 or usize wraps around as in a
-- release build; where a theorem needs that it does not, its bound is a hypothesis (fewer than
-- 2^32 contexts in a block, fewer than 2^64 batches and blocks asked for). The counter of
-- `fetch_traces`, an i64 that starts at minus a u32 and grows by lengths of vectors, is an
-- unbounded integer. Balances and block numbers of the pallet are unbounded. In
-- TraceRpc/Requests what the task hears besides is any sequence of inputs (`Schedule`), which ends,
-- while a request waits, with the end of the tracing of its block.
--
-- Parameters. The client, the runtime API and the storage overrides (`Chain`, `Client`), Substrate's
-- `Executive` (`Machine`), the transaction pool and the cryptography (`Pool`, `Crypto`), the cache
-- task as the handler sees it (`Requester`), the raw storage (`Unhashed`) and the balances
-- (`Balances`) are records of functions; how an imbalance is split (`Ration`), a hash and a share of
-- the block weight are functions. What a theorem assumes of them is among its hypotheses. The exit
-- reasons of the `evm` crate are told apart as far as the code does. Hashes, addresses and 256-bit
-- amounts are numbers.
--
-- Not modelled: the serialization of responses, the tokio tasks that trace blocks (they appear as
-- messages and effects) and the permits that delay them, the rest of the node, which puts library
-- parts together, the consensus crates, which are adapted from Substrate's, and the rest of the
-- runtime, its configuration.
pub mod Prelude
pub mod BTreeMap
pub mod Tracing
pub mod TraceRpc
pub mod Ethereum
pub mod DebugRpc
pub mod TxPool
pub mod Runtime
pub mod NodeRpc
pub mod Treasury
mod Tests
