-- ===== src/NodeRpc/Served.antt =====
-- Which servers a node has, for the APIs of its command line.
use edgeware_node.Prelude.{
  ℕ, ◌+◌, ◌≡◌, refl, ◌∙◌, sym, ap, arith, List, [], ◌∷◌, Bool, true, false, if◌then◌else◌,
}
use edgeware_node.Prelude.Text.{bytes_eq}
use edgeware_node.Prelude.Results.{ok}
use edgeware_node.NodeRpc.{
  RpcRequesters, EthApi, contains, from_str, fmt, ethapi_cmd, Server, Task, new_full_base,
  create_full, rpc_extensions, tracing_requesters, spawn_tracing_tasks, extend_with_tracing,
  is_tracing,
}

-- Reading an API that was written gives it back.
from_str-fmt : (api : EthApi) → from_str (fmt api) ≡ ok api
unfolding from_str bytes_eq
from_str-fmt EthApi.txpool = refl
from_str-fmt EthApi.debug = refl
from_str-fmt EthApi.trace = refl

ethapi_cmd-same : (apis : List EthApi) → ethapi_cmd apis ≡ apis
unfolding ethapi_cmd
ethapi_cmd-same [] = refl
ethapi_cmd-same (v ∷ apis) =
    rw (from_str-fmt v, ethapi_cmd) (ap (λ l. v ∷ l) (ethapi_cmd-same apis))

abbrev pub is_server : EthApi → Server → Bool
is_server EthApi.txpool Server.txpool = true
is_server EthApi.debug Server.debug = true
is_server EthApi.trace Server.trace = true
is_server _ _ = false

abbrev pub is_task : EthApi → Task → Bool
is_task EthApi.debug Task.ethapi_debug = true
is_task EthApi.trace Task.trace_filter_cache = true
is_task _ _ = false

abbrev pub how_many : {A : Type 0} → (A → Bool) → List A → ℕ
how_many p [] = 0
how_many p (x ∷ xs) = (if p x then 1 else 0) + how_many p xs

module _ {T D : Type 0} (cache_requester : T) (debug_requester : D) (filter_pool : Bool)
    (apis : List EthApi) where
  abbrev started : List Task × RpcRequesters T D
  started = tracing_requesters cache_requester debug_requester apis (record { ethapi = apis })

  servers-asked :
      (api : EthApi)
      → how_many (is_server api) (rpc_extensions filter_pool apis started.1)
        ≡ (if contains apis api then 1 else 0)
  unfolding rpc_extensions create_full tracing_requesters spawn_tracing_tasks extend_with_tracing
      is_tracing
  servers-asked EthApi.txpool = ground arith
  servers-asked EthApi.debug = ground arith
  servers-asked EthApi.trace = ground arith

  trace_task-asked :
      how_many (is_task EthApi.trace) started.0 ≡ (if contains apis EthApi.trace then 1 else 0)
  unfolding tracing_requesters spawn_tracing_tasks is_tracing
  trace_task-asked = ground arith

  debug_task-asked :
      how_many (is_task EthApi.debug) started.0 ≡ (if contains apis EthApi.debug then 1 else 0)
  unfolding tracing_requesters spawn_tracing_tasks is_tracing
  debug_task-asked = ground arith

-- For any APIs on the command line, a node serves each of the pool's, the debug and the trace RPC
-- once if its API is among them, and otherwise not; and it spawns the task behind the debug and the
-- trace server once just if it serves it.
pub new_full_base-serves :
    {T D : Type 0} (cache_requester : T) (debug_requester : D) (filter_pool : Bool)
    (ethapi : List EthApi)
    → let node = new_full_base cache_requester debug_requester filter_pool ethapi in
      ((api : EthApi) → how_many (is_server api) node.1 ≡ (if contains ethapi api then 1 else 0))
      × (how_many (is_task EthApi.trace) node.0 ≡ how_many (is_server EthApi.trace) node.1)
      × (how_many (is_task EthApi.debug) node.0 ≡ how_many (is_server EthApi.debug) node.1)
unfolding new_full_base
new_full_base-serves cache_requester debug_requester filter_pool ethapi =
    let asked = servers-asked cache_requester debug_requester filter_pool ethapi in
    rw (ethapi_cmd-same ethapi) (
      asked,
      trace_task-asked cache_requester debug_requester filter_pool ethapi
          ∙ sym (asked EthApi.trace),
      debug_task-asked cache_requester debug_requester filter_pool ethapi
          ∙ sym (asked EthApi.debug),
    )
