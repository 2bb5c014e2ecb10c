-- ===== src/Tracing/Types.antt =====
-- client/evm-tracing/src/types: call types, call results, and the trace of a transaction.
-- Hashes, addresses and 256-bit amounts are numbers: the code only stores, copies and compares
-- them.
use edgeware_node.Prelude.{
  ℕ, ◌-◌, List, [], ◌∷◌, ◌++◌, Option, none, some, ◌&&◌, leb, ◌==◌, if◌then◌else◌,
}
use edgeware_node.Prelude.Text.{Bytes, bytes, bytes_eq}

abbrev pub H160 : Type 0
H160 = ℕ

abbrev pub H256 : Type 0
H256 = ℕ

abbrev pub U256 : Type 0
U256 = ℕ

pub data CallResult : Type 0 where
  output : Bytes → CallResult
  error : Bytes → CallResult

pub data CreateResult : Type 0 where
  error : Bytes → CreateResult
  -- created_contract_address_hash, created_contract_code
  success : H160 → Bytes → CreateResult

pub data CallType : Type 0 where
  call call_code delegate_call static_call : CallType

pub data CreateType : Type 0 where
  create : CreateType

pub data ContextType : Type 0 where
  call : CallType → ContextType
  create : ContextType

-- `str::from_utf8` and `to_uppercase`, as far as the comparison with the names below can tell. A
-- text whose upper case is one of these names is made of ASCII letters, of U+0131 and U+017F, whose
-- upper cases are I and S, and of U+FB05 and U+FB06, whose upper case is ST. A byte from 128 on of
-- anything else is kept: such a text, valid or not, matches no name. The state holds the bytes of
-- a character begun.
pub data Pending : Type 0 where
  idle after_c4 after_c5 after_ef after_ef_ac : Pending

upper_ascii : ℕ → ℕ
upper_ascii c = if leb b'a' c && leb c b'z' then c - 32 else c

start_char : ℕ → Pending × Bytes
start_char c =
    if c == 0xc4
    then (after_c4, [])
    else if c == 0xc5
    then (after_c5, [])
    else if c == 0xef
    then (after_ef, [])
    else (idle, upper_ascii c ∷ [])

next_char : Pending → ℕ → Pending × Bytes
next_char idle c = start_char c
next_char after_c4 c = if c == 0xb1 then (idle, b'I' ∷ []) else (idle, 0xc4 ∷ c ∷ [])
next_char after_c5 c = if c == 0xbf then (idle, b'S' ∷ []) else (idle, 0xc5 ∷ c ∷ [])
next_char after_ef c = if c == 0xac then (after_ef_ac, []) else (idle, 0xef ∷ c ∷ [])
next_char after_ef_ac c =
    if c == 0x85
    then (idle, bytes "ST")
    else if c == 0x86
    then (idle, bytes "ST")
    else (idle, 0xef ∷ 0xac ∷ c ∷ [])

left_over : Pending → Bytes
left_over idle = []
left_over after_c4 = 0xc4 ∷ []
left_over after_c5 = 0xc5 ∷ []
left_over after_ef = 0xef ∷ []
left_over after_ef_ac = 0xef ∷ 0xac ∷ []

upper_from : Pending → Bytes → Bytes
upper_from p [] = left_over p
upper_from p (c ∷ cs) = let (q, out) = next_char p c in out ++ upper_from q cs

-- The `match` of `from`, on the upper case.
named_context : Bytes → Option ContextType
named_context op =
    if bytes_eq op (bytes "CREATE")
    then some ContextType.create
    else if bytes_eq op (bytes "CREATE2")
    then some ContextType.create
    else if bytes_eq op (bytes "CALL")
    then some (ContextType.call CallType.call)
    else if bytes_eq op (bytes "CALLCODE")
    then some (ContextType.call CallType.call_code)
    else if bytes_eq op (bytes "DELEGATECALL")
    then some (ContextType.call CallType.delegate_call)
    else if bytes_eq op (bytes "STATICCALL")
    then some (ContextType.call CallType.static_call)
    else none

-- `ContextType::from`.
unfoldable pub from_opcode : Bytes → Option ContextType
unfolding upper_ascii start_char next_char left_over upper_from named_context bytes_eq
from_opcode opcode = named_context (upper_from idle opcode)

-- types/block.rs: the entries of `trace_filter`.
pub data TransactionTraceAction : Type 0 where
  -- call_type, from, gas, input, to, value
  call : CallType → H160 → U256 → Bytes → H160 → U256 → TransactionTraceAction
  -- creation_method, from, gas, init, value
  create : CreateType → H160 → U256 → Bytes → U256 → TransactionTraceAction
  -- address, balance, refund_address
  suicide : H160 → U256 → H160 → TransactionTraceAction

pub data TransactionTraceResult : Type 0 where
  -- gas_used, output
  call : U256 → Bytes → TransactionTraceResult
  -- address, code, gas_used
  create : H160 → Bytes → U256 → TransactionTraceResult
  suicide : TransactionTraceResult

pub data TransactionTraceOutput : Type 0 where
  result : TransactionTraceResult → TransactionTraceOutput
  error : Bytes → TransactionTraceOutput

pub record TransactionTrace : Type 0 where
  pub action : TransactionTraceAction
  pub block_hash : H256
  pub block_number : ℕ
  pub output : TransactionTraceOutput
  pub subtraces : ℕ
  pub trace_address : List ℕ
  pub transaction_hash : H256
  pub transaction_position : ℕ

-- formatters/blockscout.rs: the entries that the call list listener collects.
pub data BlockscoutCallInner : Type 0 where
  -- call_type, to, input, res
  call : CallType → H160 → Bytes → CallResult → BlockscoutCallInner
  -- init, res
  create : Bytes → CreateResult → BlockscoutCallInner
  -- balance, to
  self_destruct : U256 → H160 → BlockscoutCallInner

pub record BlockscoutCall : Type 0 where
  pub from : H160
  pub trace_address : List ℕ
  pub subtraces : ℕ
  pub value : U256
  pub gas : U256
  pub gas_used : U256
  pub inner : BlockscoutCallInner
