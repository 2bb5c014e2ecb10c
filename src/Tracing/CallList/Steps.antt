-- ===== src/Tracing/CallList/Steps.antt =====
-- The listener between two events of a transaction in `EarlyTransact` mode, and what the events of
-- one context do to it.
use edgeware_node.Prelude.{
  ℕ, suc, ◌+◌, ◌^◌, ◌<◌, ◌≡◌, refl, ap, ◌∙◌, List, [], ◌∷◌, ◌++◌, Option, none, some, Bool, true,
  false, arith, if◌then◌else◌, ◌==◌,
}
use edgeware_node.Prelude.Words.{add_u32, add_u32-eq-add}
use edgeware_node.BTreeMap.{BTreeMap}
use edgeware_node.BTreeMap
use edgeware_node.Tracing.Types.{H160, U256, CallType, ContextType, BlockscoutCall, from_opcode}
use edgeware_node.Tracing.Events.{Snapshot, Event, EvmEvent, gas}
use edgeware_node.Tracing.Entries.{
  TracingVersion, Context, context_gas_used, start_or_zero, context_entry, call_result,
  create_result,
}
use edgeware_node.Tracing.CallList.{
  Listener, event, events, gasometer_event, runtime_event, evm_event, call_event, create_event,
  suicide_event, exit_event, pop_context_to_entry, insert_entry,
}
use edgeware_node.Prelude.Words.{add_u64, sub_u64}
use edgeware_node.Tracing.CallList.Tree.{
  frame_entry, spent_between, Frame, opcode_of, trap, enter_as, meter, leave, type_after, origin,
  first_gas, last_gas, frame_context, destruct_entry,
}

-- `cost` is the transaction's cost, `n` the next index, `m` the map of the transaction's entries
-- and `ms` those of the earlier ones.
abbrev pub running :
    ℕ
    → ℕ
    → List Context
    → BTreeMap BlockscoutCall
    → List (BTreeMap BlockscoutCall)
    → Option CallType
    → Bool
    → Listener
running cost n stack m ms t first = record {
  version = TracingVersion.early_transact;
  transaction_cost = cost;
  entries = m ∷ ms;
  entries_next_index = n;
  context_stack = stack;
  call_type = t;
  skip_next_context = false;
  step_result_entry = none;
  call_list_first_transaction = first;
  record_transaction_event_only = false;
}

pub add_u32-suc : (n : ℕ) → n + 1 < 2 ^ 32 → add_u32 n 1 ≡ suc n
add_u32-suc n h = omega (arith, add_u32-eq-add n 1)

pub events-append :
    (xs ys : List Event) (l : Listener) → events (xs ++ ys) l ≡ events ys (events xs l)
unfolding events
events-append [] ys l = refl
events-append (x ∷ xs) ys l = events-append xs ys (event x l)

pub from_opcode-opcode_of : (t : ContextType) → from_opcode (opcode_of t) ≡ some t
unfolding from_opcode
from_opcode-opcode_of (ContextType.call CallType.call) = refl
from_opcode-opcode_of (ContextType.call CallType.call_code) = refl
from_opcode-opcode_of (ContextType.call CallType.delegate_call) = refl
from_opcode-opcode_of (ContextType.call CallType.static_call) = refl
from_opcode-opcode_of ContextType.create = refl

-- The parent with `k` children.
abbrev pub grown : ℕ → Context → Context
grown k p = record p { subtraces = k }

module _ (cost n : ℕ) (rest : List Context) (m : BTreeMap BlockscoutCall)
    (ms : List (BTreeMap BlockscoutCall)) (first : Bool) where
  pub enter_as_lem :
      (p : Context) (f : Frame) (t : Option CallType) (c : ContextType)
      → f.context_type ≡ c
      → n + 1 < 2 ^ 32
      → p.subtraces + 1 < 2 ^ 32
      → event (enter_as f c) (event (trap c) (running cost n (p ∷ rest) m ms t first))
        ≡ running cost
            (suc n)
            (frame_context n (p.trace_address ++ p.subtraces ∷ []) (origin p.to f c) 0 [] f
              ∷ grown (suc p.subtraces) p
              ∷ rest)
            m
            ms
            (type_after t c)
            first
  unfolding event runtime_event evm_event call_event create_event
  enter_as_lem p f t (ContextType.call u) e h k =
      rw (from_opcode-opcode_of (ContextType.call u), runtime_event)
        (rw (add_u32-suc n h, add_u32-suc p.subtraces k) (ground arith))
  enter_as_lem p f t ContextType.create e h k =
      rw (from_opcode-opcode_of ContextType.create, runtime_event)
        (rw (add_u32-suc n h, add_u32-suc p.subtraces k) (ground arith))

abbrev pub metered : Option ℕ → ℕ → Context → Context
metered start g c = record c { gas = g; start_gas = start }

first_gas-some : (g : ℕ) (xs : List Snapshot) → first_gas (some g) xs ≡ some g
first_gas-some g [] = refl
first_gas-some g (x ∷ xs) = refl

pub first_gas-append :
    (start : Option ℕ) (xs ys : List Snapshot)
    → first_gas (first_gas start xs) ys ≡ first_gas start (xs ++ ys)
first_gas-append start [] ys = refl
first_gas-append none (x ∷ xs) ys = first_gas-some (gas x) ys
first_gas-append (some g) (x ∷ xs) ys = first_gas-some g ys

pub last_gas-append :
    (g : ℕ) (xs ys : List Snapshot) → last_gas (last_gas g xs) ys ≡ last_gas g (xs ++ ys)
last_gas-append g [] ys = refl
last_gas-append g (x ∷ xs) ys = last_gas-append (gas x) xs ys

module _ (cost n : ℕ) (rest : List Context) (m : BTreeMap BlockscoutCall)
    (ms : List (BTreeMap BlockscoutCall)) (t : Option CallType) (first : Bool) where
  pub meter_lem :
      (c : Context) (start : Option ℕ) (g : ℕ) (ss : List Snapshot)
      → events (meter ss) (running cost n (metered start g c ∷ rest) m ms t first)
        ≡ running cost n (metered (first_gas start ss) (last_gas g ss) c ∷ rest) m ms t first
  unfolding events event gasometer_event
  meter_lem c start g [] = refl
  meter_lem c none g (s ∷ ss) =
      meter_lem c (some (gas s)) (gas s) ss
      ∙ ap (λ x. running cost n (metered x (last_gas (gas s) ss) c ∷ rest) m ms t first)
          (first_gas-some (gas s) ss)
  meter_lem c (some x) g (s ∷ ss) =
      meter_lem c (some x) (gas s) ss
      ∙ ap (λ y. running cost n (metered y (last_gas (gas s) ss) c ∷ rest) m ms t first)
          (first_gas-some x ss)

  -- Both ways to leave a context insert the same entry.
  pub leave_lem :
      (f : Frame) (stepped : Bool) (c : Context)
      → f.stepped ≡ stepped
      → events (leave f) (running cost n (c ∷ rest) m ms t first)
        ≡ running cost n rest
            (BTreeMap.insert c.entries_index
              (context_entry cost c
                (call_result f.reason f.return_value)
                (create_result f.reason c.to f.return_value))
              m)
            ms
            t
            first
  unfolding events event runtime_event evm_event exit_event pop_context_to_entry insert_entry
  leave_lem f true c e = rw e
  leave_lem f false c e = rw e

  pub destruct_lem :
      (p : Context) (a b : H160) (v : U256)
      → n + 1 < 2 ^ 32
      → p.subtraces + 1 < 2 ^ 32
      → event (Event.evm (EvmEvent.suicide a b v)) (running cost n (p ∷ rest) m ms t first)
        ≡ running cost
            (suc n)
            (grown (suc p.subtraces) p ∷ rest)
            (BTreeMap.insert n (destruct_entry (p.trace_address ++ p.subtraces ∷ []) a b v) m)
            ms
            t
            first
  unfolding event evm_event suicide_event insert_entry
  destruct_lem p a b v h k = rw (add_u32-suc n h, add_u32-suc p.subtraces k)

gas_used_lem :
    (cost : ℕ) (c : Context) (ss : List Snapshot)
    → c.start_gas ≡ first_gas none ss
    → c.gas ≡ last_gas 0 ss
    → context_gas_used cost c
      ≡ (if c.entries_index == 0 then add_u64 (spent_between ss) cost else spent_between ss)
unfolding context_gas_used start_or_zero sub_u64
gas_used_lem cost c [] start stop = rw (start, stop, context_gas_used) (ground arith)
gas_used_lem cost c (s ∷ ss) start stop = rw (start, stop, context_gas_used) (ground arith)

-- The entry made of a context at its end is the one that the tree is given.
pub frame_entry_lem :
    (cost n : ℕ) (address : List ℕ) (from : H160) (k : ℕ) (f : Frame)
    → context_entry cost
        (frame_context n address from k (f.before ++ f.after) f)
        (call_result f.reason f.return_value)
        (create_result f.reason f.to f.return_value)
      ≡ frame_entry cost n address from k f
unfolding context_entry call_result create_result
frame_entry_lem cost n address from k f =
    rw
      (gas_used_lem cost (frame_context n address from k (f.before ++ f.after) f)
        (f.before ++ f.after) refl refl)
      (ground arith)
