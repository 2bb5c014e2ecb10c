-- ===== src/Tracing/CallTracer.antt =====
-- client/evm-tracing/src/formatters/call_tracer.rs: the entries of a transaction as a tree of calls.
-- A `Vec` that is popped is kept with its last element first. An item of the result is a
-- `Call::CallTracer`, since `map` makes it so.
pub mod Sorted
pub mod Levels
pub mod Nesting
pub mod Whole
pub mod Rounds
pub mod Trees
use edgeware_node.Prelude.{
  ℕ, zero, suc, List, [], ◌∷◌, map, reverse, Option, none, some, Bool, false, true, ◌&&◌, ◌||◌, ltb,
  ◌==◌, if◌then◌else◌, length,
}
use edgeware_node.Prelude.Text.{Bytes, bytes, bytes_eq}
use edgeware_node.BTreeMap.{BTreeMap}
use edgeware_node.Tracing.Types.{
  H160, U256, CallResult, CreateResult, CallType, BlockscoutCall, BlockscoutCallInner,
}
use edgeware_node.Tracing.CallList.{Listener}
use edgeware_node.Tracing.Formatters.{retain_filled}

pub data CallTracerInner : Type 0 where
  -- call_type, to, input, res, value
  call : Bytes → H160 → Bytes → CallResult → Option U256 → CallTracerInner
  -- call_type, input, to, output, error, value
  create : Bytes → Bytes → Option H160 → Option Bytes → Option Bytes → U256 → CallTracerInner
  -- call_type, to, value
  self_destruct : Bytes → H160 → U256 → CallTracerInner

mutual
  pub data CallTracerCall : Type 0 where
    -- from, trace_address, gas, gas_used, inner, calls
    call_tracer_call :
        H160 → Option (List ℕ) → U256 → U256 → CallTracerInner → Calls → CallTracerCall

  pub data Calls : Type 0 where
    no_calls : Calls
    more_calls : CallTracerCall → Calls → Calls

call_type_name : CallType → Bytes
call_type_name CallType.call = bytes "CALL"
call_type_name CallType.call_code = bytes "CALLCODE"
call_type_name CallType.delegate_call = bytes "DELEGATECALL"
call_type_name CallType.static_call = bytes "STATICCALL"

create_inner : U256 → Bytes → CreateResult → CallTracerInner
create_inner value init (CreateResult.success address code) =
    CallTracerInner.create (bytes "CREATE") init (some address) (some code) none value
create_inner value init (CreateResult.error e) =
    CallTracerInner.create (bytes "CREATE") init none none (some e) value

unfoldable pub tracer_inner : U256 → BlockscoutCallInner → CallTracerInner
unfolding call_type_name create_inner
tracer_inner value (BlockscoutCallInner.call call_type to input res) =
    CallTracerInner.call (call_type_name call_type) to input res (some value)
tracer_inner value (BlockscoutCallInner.create init res) = create_inner value init res
tracer_inner value (BlockscoutCallInner.self_destruct balance to) =
    CallTracerInner.self_destruct (bytes "SELFDESTRUCT") to balance

-- The item of an entry.
abbrev pub call_of : BlockscoutCall → CallTracerCall
call_of it =
    call_tracer_call it.from (some it.trace_address) it.gas it.gas_used
      (tracer_inner it.value it.inner) no_calls

-- Every item of the vector has its address: only a popped item loses it. So the two
-- `unreachable!()` for an item without one are not reached.
abbrev pub address_of : CallTracerCall → List ℕ
address_of (call_tracer_call from (some a) gas gas_used inner calls) = a
address_of (call_tracer_call from none gas gas_used inner calls) = []

-- For addresses of one length, so that `b[i]` is in range.
unfoldable pub sibling_greater_than : List ℕ → List ℕ → Bool
sibling_greater_than [] b = false
sibling_greater_than (x ∷ a) [] = false
sibling_greater_than (x ∷ a) (y ∷ b) =
    if ltb y x then true else if ltb x y then false else sibling_greater_than a b

-- The comparison of `sort_by` is `Less`.
unfoldable pub is_less : List ℕ → List ℕ → Bool
is_less a b = ltb (length a) (length b) || (length a == length b) && sibling_greater_than a b

-- `sort_by`, by insertion; the last element of the vector comes first.
unfoldable pub insert_item : CallTracerCall → List CallTracerCall → List CallTracerCall
insert_item x [] = x ∷ []
insert_item x (y ∷ ys) =
    if is_less (address_of y) (address_of x) then x ∷ y ∷ ys else y ∷ insert_item x ys

unfoldable pub sort_items : List CallTracerCall → List CallTracerCall
sort_items [] = []
sort_items (x ∷ xs) = insert_item x (sort_items xs)

-- `a[0..a.len() - 1]`, which panics on an empty address.
unfoldable pub parent_address : List ℕ → Option (List ℕ)
parent_address [] = none
parent_address (i ∷ []) = some []
parent_address (i ∷ j ∷ a) = elim (parent_address (j ∷ a)) [ none ↦ none | some p ↦ some (i ∷ p) ]

unfoldable pub without_address : CallTracerCall → CallTracerCall
without_address (call_tracer_call from trace_address gas gas_used inner calls) =
    call_tracer_call from none gas gas_used inner calls

unfoldable pub push_last : Calls → CallTracerCall → Calls
push_last no_calls c = more_calls c no_calls
push_last (more_calls x calls) c = more_calls x (push_last calls c)

unfoldable pub push_call : CallTracerCall → CallTracerCall → CallTracerCall
unfolding push_last
push_call last (call_tracer_call from trace_address gas gas_used inner calls) =
    call_tracer_call from trace_address gas gas_used inner (push_last calls last)

-- `position`, from the front of the vector, and `get_mut(index)` with `calls.push(last)`.
unfoldable pub attach : List ℕ → CallTracerCall → List CallTracerCall → Option (List CallTracerCall)
attach p last [] = none
attach p last (x ∷ xs) = elim (attach p last xs) [
  | some ys ↦ some (x ∷ ys)
  | none ↦ if bytes_eq (address_of x) p then some (push_call last x ∷ xs) else none
]

-- One round of the loop: `none` is a panic. An item without a parent is dropped.
unfoldable pub pop_and_push : CallTracerCall → List CallTracerCall → Option (List CallTracerCall)
pop_and_push last result = elim (parent_address (address_of last)) [
  | none ↦ none
  | some p ↦ elim (attach p (without_address last) result) [
    | none ↦ some result
    | some ys ↦ some ys
  ]
]

-- `while result.len() > 1`, for at most this number of rounds.
unfoldable pub nest : ℕ → List CallTracerCall → Option (List CallTracerCall)
nest zero result = some result
nest (suc n) [] = some []
nest (suc n) (last ∷ result) =
    if ltb 0 (length result)
    then elim (pop_and_push last result) [ none ↦ none | some r ↦ nest n r ]
    else some (last ∷ result)

-- `if result.len() > 1`.
unfoldable pub nested : List CallTracerCall → Option (List CallTracerCall)
nested result =
    if ltb 1 (length result) then nest (length result) (sort_items result) else some result

-- What is left at the end is a trace if it is one item.
unfoldable pub single_item : List CallTracerCall → List CallTracerCall
single_item [] = []
single_item (x ∷ []) = without_address x ∷ []
single_item (x ∷ y ∷ rest) = []

unfoldable pub format_transactions : List (BTreeMap BlockscoutCall) → Option (List CallTracerCall)
format_transactions [] = some []
format_transactions (m ∷ ms) = elim (nested (map (λ e. call_of (e.1)) m)) [
  | none ↦ none
  | some r ↦ elim (format_transactions ms) [
    | none ↦ none
    | some traces ↦ elim (single_item r) [ [] ↦ some traces | x ∷ _ ↦ some (x ∷ traces) ]
  ]
]

unless_empty : List CallTracerCall → Option (List CallTracerCall)
unless_empty [] = none
unless_empty (x ∷ xs) = some (x ∷ xs)

-- `call_tracer::Formatter::format`: `none` is a panic, `some none` no traces.
unfoldable pub format_call_tracer : Listener → Option (Option (List CallTracerCall))
unfolding unless_empty
format_call_tracer l = elim (format_transactions (retain_filled (reverse l.entries))) [
  | none ↦ none
  | some traces ↦ some (unless_empty traces)
]
