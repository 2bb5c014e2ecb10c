-- ===== src/NodeRpc.antt =====
-- How a node puts its RPC together: cli-opt/src/lib.rs, rpc/src/lib.rs, rpc/src/tracing.rs and the
-- part of cli/src/service.rs that calls them, all under node/. A server of the IO handler is known
-- by its name, and so is a task that is spawned.
pub mod Served
use edgeware_node.Prelude.{
  List, [], ◌∷◌, ◌++◌, map, Option, none, some, Bool, true, false, ◌||◌, if◌then◌else◌,
}
use edgeware_node.Prelude.Text.{Bytes, bytes, bytes_eq}
use edgeware_node.Prelude.Results.{Result, ok, err}

-- node/cli-opt/src/lib.rs.
pub data EthApi : Type 0 where
  txpool debug trace : EthApi

pub record RpcConfig : Type 0 where
  pub ethapi : List EthApi

-- `from_str`, with the text of its error.
unfoldable pub from_str : Bytes → Result EthApi Bytes
from_str s =
    if bytes_eq s (bytes "txpool")
    then ok EthApi.txpool
    else if bytes_eq s (bytes "debug")
    then ok EthApi.debug
    else if bytes_eq s (bytes "trace")
    then ok EthApi.trace
    else err (bytes "`" ++ (s ++ bytes "` is not recognized as a supported Ethereum Api"))

-- `Display`.
abbrev pub fmt : EthApi → Bytes
fmt EthApi.txpool = bytes "txpool"
fmt EthApi.debug = bytes "debug"
fmt EthApi.trace = bytes "trace"

is_api : EthApi → EthApi → Bool
is_api EthApi.txpool EthApi.txpool = true
is_api EthApi.debug EthApi.debug = true
is_api EthApi.trace EthApi.trace = true
is_api _ _ = false

unfoldable pub contains : List EthApi → EthApi → Bool
unfolding is_api
contains [] api = false
contains (x ∷ apis) api = is_api x api || contains apis api

pub data Server : Type 0 where
  system contracts transaction_payment grandpa dev eth eth_filter net web3 eth_pub_sub : Server
  txpool manual_seal trace debug : Server

pub data Task : Type 0 where
  trace_filter_cache ethapi_debug : Task

pub record RpcRequesters (T D : Type 0) : Type 0 where
  pub debug : Option D
  pub trace : Option T

started_if : {R : Type 0} → Bool → Task → R → List Task × Option R
started_if false task requester = ([], none)
started_if true task requester = (task ∷ [], some requester)

server_if : {R : Type 0} → Server → Option R → List Server
server_if server none = []
server_if server (some r) = server ∷ []

unfoldable pub extend_with_tracing : {T D : Type 0} → RpcRequesters T D → List Server → List Server
unfolding server_if
extend_with_tracing requesters io =
    io ++ (server_if Server.trace requesters.trace ++ server_if Server.debug requesters.debug)

-- What is left of an API of the command line that is written and read again.
ok_or_drop : Result EthApi Bytes → List EthApi → List EthApi
ok_or_drop (ok api) apis = api ∷ apis
ok_or_drop (err e) apis = apis

unfoldable pub ethapi_cmd : List EthApi → List EthApi
unfolding ok_or_drop
ethapi_cmd [] = []
ethapi_cmd (v ∷ apis) = ok_or_drop (from_str (fmt v)) (ethapi_cmd apis)

unfoldable pub is_tracing : List EthApi → Bool
is_tracing apis = contains apis EthApi.debug || contains apis EthApi.trace

-- The requesters, through which the servers speak to the tasks, are parameters.
module _ {T D : Type 0} (cache_requester : T) (debug_requester : D) where
  -- The tasks that are spawned, and their requesters.
  unfoldable pub spawn_tracing_tasks : RpcConfig → List Task × RpcRequesters T D
  unfolding started_if
  spawn_tracing_tasks rpc_config =
      let traced =
        started_if (contains rpc_config.ethapi EthApi.trace) Task.trace_filter_cache
          cache_requester in
      let debugged =
        started_if (contains rpc_config.ethapi EthApi.debug) Task.ethapi_debug debug_requester in
      (traced.0 ++ debugged.0, record { debug = debugged.1; trace = traced.1 })

  -- The requesters of a node, in `new_full_base`.
  unfoldable pub tracing_requesters : List EthApi → RpcConfig → List Task × RpcRequesters T D
  tracing_requesters apis rpc_config =
      if is_tracing apis
      then spawn_tracing_tasks rpc_config
      else ([], record { debug = none; trace = none })

server_when : Bool → Server → List Server
server_when false server = []
server_when true server = server ∷ []

-- `create_full`, by whether there are a filter pool and a command sink.
unfoldable pub create_full : Bool → Bool → List EthApi → List Server
unfolding server_when
create_full filter_pool command_sink apis =
    (Server.system ∷ Server.contracts ∷ Server.transaction_payment ∷ Server.grandpa ∷ Server.dev
      ∷ Server.eth ∷ [])
    ++ (server_when filter_pool Server.eth_filter
        ++ ((Server.net ∷ Server.web3 ∷ Server.eth_pub_sub ∷ [])
            ++ (server_when (contains apis EthApi.txpool) Server.txpool
                ++ server_when command_sink Server.manual_seal)))

-- `rpc_extensions_builder` of a node without a command sink.
unfoldable pub rpc_extensions :
    {T D : Type 0} → Bool → List EthApi → RpcRequesters T D → List Server
rpc_extensions filter_pool apis requesters =
    let io = create_full filter_pool false apis in
    if is_tracing apis then extend_with_tracing requesters io else io

-- What `new_full_base` spawns and serves, for the APIs of the command line.
unfoldable pub new_full_base : {T D : Type 0} → T → D → Bool → List EthApi → List Task × List Server
new_full_base cache_requester debug_requester filter_pool ethapi =
    let apis = ethapi_cmd ethapi in
    let started =
      tracing_requesters cache_requester debug_requester apis (record { ethapi = ethapi }) in
    (started.0, rpc_extensions filter_pool apis started.1)
