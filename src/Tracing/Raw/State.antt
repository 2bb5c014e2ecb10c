-- ===== src/Tracing/Raw/State.antt =====
-- client/evm-tracing/src/listeners/raw.rs: the listener's state, with `RawStepLog` of types/single.rs
-- and `convert_memory` of types/mod.rs. The vectors `context_stack` and `step_logs` are lists with
-- the vector's last element first.
use edgeware_node.Prelude.{
  ℕ, zero, suc, ◌+◌, ◌*◌, List, [], ◌∷◌, Option, Bool, false, length, take, drop,
}
use edgeware_node.Prelude.Text.{Bytes}
use edgeware_node.BTreeMap.{BTreeMap}
use edgeware_node.Tracing.Types.{H160, H256, U256}

pub record Step : Type 0 where
  pub opcode : Bytes
  pub depth : ℕ
  pub gas : ℕ
  pub gas_cost : ℕ
  pub position : ℕ
  pub memory : Option Bytes
  pub stack : Option (List H256)

pub record Context : Type 0 where
  pub storage_cache : BTreeMap H256
  pub address : H160
  pub current_step : Option Step
  pub global_storage_changes : BTreeMap (BTreeMap H256)

pub record RawStepLog : Type 0 where
  pub depth : U256
  pub gas : U256
  pub gas_cost : U256
  pub memory : Option (List H256)
  pub op : Bytes
  pub pc : U256
  pub stack : Option (List H256)
  pub storage : Option (BTreeMap H256)

pub record Listener : Type 0 where
  pub disable_storage : Bool
  pub disable_memory : Bool
  pub disable_stack : Bool
  pub new_context : Bool
  pub context_stack : List Context
  pub step_logs : List RawStepLog
  pub return_value : Bytes
  pub final_gas : ℕ

-- `Listener::new`.
abbrev pub new : Bool → Bool → Bool → Listener
new disable_storage disable_memory disable_stack = record {
  disable_storage = disable_storage;
  disable_memory = disable_memory;
  disable_stack = disable_stack;
  new_context = false;
  context_stack = [];
  step_logs = [];
  return_value = [];
  final_gas = 0;
}

-- A word of at most 32 bytes, the last of them the lowest: a shorter chunk is padded in front.
abbrev pub word_of : ℕ → Bytes → H256
word_of acc [] = acc
word_of acc (b ∷ bs) = word_of (acc * 256 + b) bs

-- `chunks(32)`; there are at most as many chunks as bytes.
abbrev pub words_in : ℕ → Bytes → List H256
words_in zero bs = []
words_in (suc n) [] = []
words_in (suc n) (b ∷ bs) = word_of 0 (take 32 (b ∷ bs)) ∷ words_in n (drop 32 (b ∷ bs))

unfoldable pub convert_memory : Bytes → List H256
convert_memory bs = words_in (length bs) bs
