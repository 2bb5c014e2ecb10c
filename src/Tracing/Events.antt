-- ===== src/Tracing/Events.antt =====
-- primitives/rpc/evm-tracing-events/src: the events that the instrumented EVM emits.
use edgeware_node.Prelude.{ℕ, Option, Bool}
use edgeware_node.Prelude.Text.{Bytes}
use edgeware_node.Prelude.Words.{sub_u64}
use edgeware_node.Prelude.Results.{Result}
use edgeware_node.Tracing.Types.{H160, H256, U256}
use mathlib.Core.List.{List}

-- gasometer.rs. `refunded_gas` is an `i64` that no listener reads: its bit pattern.
pub record Snapshot : Type 0 where
  pub gas_limit : ℕ
  pub memory_gas : ℕ
  pub used_gas : ℕ
  pub refunded_gas : ℕ

-- `Snapshot::gas`, the remaining gas.
unfoldable pub gas : Snapshot → ℕ
gas s = sub_u64 (sub_u64 s.gas_limit s.used_gas) s.memory_gas

pub data GasometerEvent : Type 0 where
  -- cost, snapshot
  record_cost : ℕ → Snapshot → GasometerEvent
  -- refund, snapshot
  record_refund : ℕ → Snapshot → GasometerEvent
  -- stipend, snapshot
  record_stipend : ℕ → Snapshot → GasometerEvent
  -- gas_cost, memory_gas, gas_refund, snapshot
  record_dynamic_cost : ℕ → ℕ → ℕ → Snapshot → GasometerEvent
  -- cost, snapshot
  record_transaction : ℕ → Snapshot → GasometerEvent

-- The exit reasons of the `evm` crate, by the cases that this repository tells apart: the errors
-- that it names, and `unnamed` for those that it does not.
pub data ExitSucceed : Type 0 where
  returned unnamed : ExitSucceed

pub data ExitError : Type 0 where
  stack_underflow stack_overflow invalid_jump invalid_range designated_invalid : ExitError
  call_too_deep create_collision create_contract_limit out_of_offset out_of_gas : ExitError
  out_of_fund : ExitError
  other : Bytes → ExitError
  unnamed : ℕ → ExitError

pub data ExitReason : Type 0 where
  succeed : ExitSucceed → ExitReason
  error : ExitError → ExitReason
  revert : ExitReason
  fatal : ExitReason

-- lib.rs: the EVM context.
pub record Context : Type 0 where
  pub address : H160
  pub caller : H160
  pub apparent_value : U256

-- runtime.rs. A trap holds the marshalled opcode.
pub record Stack : Type 0 where
  pub items : List H256
  pub limit : ℕ

pub record Memory : Type 0 where
  pub bytes : Bytes
  pub effective_len : U256
  pub limit : ℕ

pub data Capture : Type 0 where
  exit : ExitReason → Capture
  trap : Bytes → Capture

pub data RuntimeEvent : Type 0 where
  -- context, opcode, position, stack, memory
  step : Context → Bytes → Result ℕ ExitReason → Option Stack → Option Memory → RuntimeEvent
  -- result, return_value
  step_result : Result (Unit {0}) Capture → Bytes → RuntimeEvent
  -- address, index, value
  s_load : H160 → H256 → H256 → RuntimeEvent
  -- address, index, value
  s_store : H160 → H256 → H256 → RuntimeEvent

-- evm.rs.
pub record Transfer : Type 0 where
  pub source : H160
  pub target : H160
  pub value : U256

pub data CreateScheme : Type 0 where
  -- caller
  legacy : H160 → CreateScheme
  -- caller, code_hash, salt
  create2 : H160 → H256 → H256 → CreateScheme
  fixed : H160 → CreateScheme

pub data EvmEvent : Type 0 where
  -- code_address, transfer, input, target_gas, is_static, context
  call : H160 → Option Transfer → Bytes → Option ℕ → Bool → Context → EvmEvent
  -- caller, address, scheme, value, init_code, target_gas
  create : H160 → H160 → CreateScheme → U256 → Bytes → Option ℕ → EvmEvent
  -- address, target, balance
  suicide : H160 → H160 → U256 → EvmEvent
  -- reason, return_value
  exit : ExitReason → Bytes → EvmEvent
  -- caller, address, value, data, gas_limit
  transact_call : H160 → H160 → U256 → Bytes → ℕ → EvmEvent
  -- caller, value, init_code, gas_limit, address
  transact_create : H160 → U256 → Bytes → ℕ → H160 → EvmEvent
  -- caller, value, init_code, salt, gas_limit, address
  transact_create2 : H160 → U256 → Bytes → H256 → ℕ → H160 → EvmEvent
  -- code_address, transfer, input, target_gas, is_static, context
  precompile_subcall : H160 → Option Transfer → Bytes → Option ℕ → Bool → Context → EvmEvent

pub data Event : Type 0 where
  evm : EvmEvent → Event
  gasometer : GasometerEvent → Event
  runtime : RuntimeEvent → Event
  call_list_new : Event
