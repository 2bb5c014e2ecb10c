-- ===== src/Tracing/Raw/Panics.antt =====
-- The raw listener asks the runtime for what it needs, so that `expect` never fails.
use edgeware_node.Prelude.{
  ◌≡◌, refl, ◌≢◌, inl, inr, List, [], ◌∷◌, map, Option, none, some, Bool, arith, Option-cases,
  subst,
}
use edgeware_node.Prelude.Results.{Result}
use edgeware_node.Tracing.Events.{Event, EvmEvent, GasometerEvent, RuntimeEvent, Capture}
use edgeware_node.Prelude.Text.{Bytes}
use edgeware_node.Tracing.Raw.State.{Listener, Context, new}
use edgeware_node.Tracing.Raw.{
  event, events, runtime_event, gasometer_event, end_step, begin_context, step_at, put_top,
  with_step, kept, log_top, log_step, store, record_cost, exit_top,
}
use edgeware_node.Tracing.Raw.Filter.{
  StepEventFilter, step_event_filter, InterpreterEvent, from_evm_event, if_enabled,
}

-- An event at its source.
pub data Emitted : Type 0 where
  interpreter : InterpreterEvent → Emitted
  gasometer : GasometerEvent → Emitted
  evm : EvmEvent → Emitted
  call_list_new : Emitted

abbrev pub emitted : StepEventFilter → Emitted → Event
emitted f (interpreter e) = Event.runtime (from_evm_event f e)
emitted f (gasometer e) = Event.gasometer e
emitted f (evm e) = Event.evm e
emitted f call_list_new = Event.call_list_new

-- The configuration is never changed.
abbrev pub Same : Listener → Listener → Type 0
Same l m =
    (m.disable_storage ≡ l.disable_storage)
    × (m.disable_memory ≡ l.disable_memory)
    × (m.disable_stack ≡ l.disable_stack)

abbrev pub SameIf : Listener → Option Listener → Type 0
SameIf l none = Unit {0}
SameIf l (some m) = Same l m

gasometer_event-Same : (e : GasometerEvent) (l : Listener) → Same l (gasometer_event e l)
unfolding gasometer_event record_cost
gasometer_event-Same e l = ground arith

log_top-Same : (cs : List Context) (l : Listener) → Same l (log_top cs l)
unfolding log_top log_step
log_top-Same cs l = ground arith

end_step-Same : (r : Result (Unit {0}) Capture) (v : Bytes) (l : Listener) → Same l (end_step r v l)
unfolding end_step exit_top
end_step-Same r v l = ground arith

runtime_event-Same : (e : RuntimeEvent) (l : Listener) → SameIf l (runtime_event e l)
unfolding runtime_event begin_context step_at put_top with_step store
runtime_event-Same (RuntimeEvent.step c o p s m) l = ground arith
runtime_event-Same (RuntimeEvent.step_result r v) l =
    ground (arith, log_top-Same l.context_stack l, end_step-Same r v (log_top l.context_stack l))
runtime_event-Same (RuntimeEvent.s_load a i v) l = ground arith
runtime_event-Same (RuntimeEvent.s_store a i v) l = ground arith

pub event-Same : (e : Event) (l : Listener) → SameIf l (event e l)
unfolding event
event-Same (Event.gasometer e) l = gasometer_event-Same e l
event-Same (Event.runtime e) l = runtime_event-Same e l
event-Same (Event.evm e) l = (refl, refl, refl)
event-Same Event.call_list_new l = (refl, refl, refl)

-- With its own filter the listener takes every event of the interpreter.
runtime_event-answers :
    (e : InterpreterEvent) (l : Listener)
    → runtime_event (from_evm_event (step_event_filter l) e) l ≢ none
unfolding runtime_event from_evm_event step_event_filter if_enabled kept begin_context step_at
    put_top with_step
runtime_event-answers (InterpreterEvent.step c o p s m) l = ground arith
runtime_event-answers (InterpreterEvent.step_exit reason v) l = ground arith
runtime_event-answers (InterpreterEvent.step_trap o v) l = ground arith
runtime_event-answers (InterpreterEvent.step_done v) l = ground arith
runtime_event-answers (InterpreterEvent.s_load a i v) l = ground arith
runtime_event-answers (InterpreterEvent.s_store a i v) l = ground arith

event-answers : (e : Emitted) (l : Listener) → event (emitted (step_event_filter l) e) l ≢ none
unfolding event
event-answers (interpreter e) l = runtime_event-answers e l
event-answers (gasometer e) l = ground arith
event-answers (evm e) l = ground arith
event-answers call_list_new l = ground arith

Same-filter : (l m : Listener) → Same l m → step_event_filter m ≡ step_event_filter l
unfolding step_event_filter
Same-filter l m same = rw (same.1, same.2) refl

events-answers :
    (es : List Emitted) (l : Listener) → events (map (emitted (step_event_filter l)) es) l ≢ none
unfolding events
events-answers [] l = ground arith
events-answers (e ∷ es) l = elim (Option-cases (event (emitted (step_event_filter l) e) l)) [
  | inl failed ↦ absurd (event-answers e l failed)
  | inr (m, done) ↦
      (let same : Same l m =
          subst (SameIf l) done (event-Same (emitted (step_event_filter l) e) l) in
        rw (done, events)
          (subst (λ f. events (map (emitted f) es) m ≢ none) (Same-filter l m same)
            (events-answers es m)))
]

-- A listener whose filter the runtime has been given never panics, whatever events the transaction
-- emits and in whatever order: the memory and the stack that it expects are there.
pub own_filter_suffices :
    (disable_storage disable_memory disable_stack : Bool) (es : List Emitted)
    → let l = new disable_storage disable_memory disable_stack in
      events (map (emitted (step_event_filter l)) es) l ≢ none
own_filter_suffices disable_storage disable_memory disable_stack es =
    events-answers es (new disable_storage disable_memory disable_stack)
