-- ===== src/Tests/Node.antt =====
-- A node that is started with the trace and the pool API.
use edgeware_node.Prelude.{ℕ, ◌≡◌, List, [], ◌∷◌, true, if◌then◌else◌}
use edgeware_node.NodeRpc.{EthApi, contains, new_full_base}
use edgeware_node.NodeRpc.Served.{is_server, is_task, how_many, new_full_base-serves}

abbrev apis : List EthApi
apis = EthApi.trace ∷ EthApi.txpool ∷ []

new_full_base-serves_example :
    let node = new_full_base {T = ℕ} {D = ℕ} 1 2 true apis in
    ((api : EthApi) → how_many (is_server api) node.1 ≡ (if contains apis api then 1 else 0))
    × (how_many (is_task EthApi.trace) node.0 ≡ how_many (is_server EthApi.trace) node.1)
    × (how_many (is_task EthApi.debug) node.0 ≡ how_many (is_server EthApi.debug) node.1)
new_full_base-serves_example = new_full_base-serves {T = ℕ} {D = ℕ} 1 2 true apis
