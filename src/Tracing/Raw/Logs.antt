-- ===== src/Tracing/Raw/Logs.antt =====
-- What the logs of the raw listener hold: exactly what its configuration asks for.
use mathlib.Core.Option.{some-injective}
use edgeware_node.Prelude.{
  ℕ, ◌≤◌, ◌≡◌, refl, sym, ap, ◌∙◌, inl, inr, List, [], ◌∷◌, Option, none, some, Bool, true, false,
  arith, Option-cases, subst,
}
use edgeware_node.Prelude.Text.{Bytes}
use edgeware_node.Prelude.Results.{Result, ok, err}
use edgeware_node.BTreeMap.{BTreeMap}
use edgeware_node.Tracing.Types.{H256, ContextType, from_opcode}
use edgeware_node.Tracing.Events.{Context as EvmContext}
use edgeware_node.Tracing.Events.{
  Event, GasometerEvent, RuntimeEvent, Capture, ExitReason, Stack, Memory,
}
use edgeware_node.Tracing.Raw.State.{Listener, Context, Step, RawStepLog, new}
use edgeware_node.Tracing.Raw.Changes.{apply_changes, apply_change}
use edgeware_node.Tracing.Raw.{
  event, events, runtime_event, gasometer_event, end_step, begin_context, step_at, put_top,
  with_step, kept, log_top, log_step, log_of, store, record_cost, register_cost, exit_top, pass_on,
  after_trap,
}

abbrev pub is_none {ℓ} : {A : Type ℓ} → Option A → Bool
is_none none = true
is_none (some a) = false

-- The configuration: storage, memory and stack.
abbrev pub LogOk : Bool → Bool → Bool → RawStepLog → Type 0
LogOk ds dm dk log =
    (is_none log.storage ≡ ds)
    × (is_none log.memory ≡ dm)
    × (is_none log.stack ≡ dk)
    × (1 ≤ log.depth)

abbrev pub AllLogs : Bool → Bool → Bool → List RawStepLog → Type 0
AllLogs ds dm dk [] = Unit {0}
AllLogs ds dm dk (log ∷ logs) = LogOk ds dm dk log × AllLogs ds dm dk logs

abbrev StepOk : Bool → Bool → Option Step → Type 0
StepOk dm dk none = Unit {0}
StepOk dm dk (some s) = (is_none s.memory ≡ dm) × (is_none s.stack ≡ dk) × (1 ≤ s.depth)

abbrev AllSteps : Bool → Bool → List Context → Type 0
AllSteps dm dk [] = Unit {0}
AllSteps dm dk (c ∷ cs) = StepOk dm dk c.current_step × AllSteps dm dk cs

record Inv (ds dm dk : Bool) (l : Listener) : Type 0 where
  storage : l.disable_storage ≡ ds
  memory : l.disable_memory ≡ dm
  stack : l.disable_stack ≡ dk
  steps : AllSteps dm dk l.context_stack
  logs : AllLogs ds dm dk l.step_logs

abbrev InvIf : Bool → Bool → Bool → Option Listener → Type 0
InvIf ds dm dk none = Unit {0}
InvIf ds dm dk (some l) = Inv ds dm dk l

apply_changes-step :
    (m : BTreeMap (BTreeMap H256)) (c : Context) → (apply_changes m c).current_step ≡ c.current_step
unfolding apply_changes apply_change
apply_changes-step [] c = refl
apply_changes-step ((a, s) ∷ m) c = apply_changes-step m (apply_change a s c) ∙ ground arith

kept_lem {ℓ} :
    {A B : Type ℓ} (b : Bool) (f : A → B) (given : Option A) (a : Option B)
    → kept b f given ≡ some a
    → is_none a ≡ b
unfolding kept
kept_lem true f given a e = ap is_none (sym (some-injective _ _ e))
kept_lem false f none a e = absurd (ground arith)
kept_lem false f (some x) a e = ap is_none (sym (some-injective _ _ e))

module _ (ds dm dk : Bool) where
  gasometer_event-Inv :
      (e : GasometerEvent) (l : Listener) → Inv ds dm dk l → Inv ds dm dk (gasometer_event e l)
  unfolding gasometer_event record_cost register_cost
  gasometer_event-Inv e l v = record {
    storage = ground (arith, v.storage);
    memory = ground (arith, v.memory);
    stack = ground (arith, v.stack);
    steps = ground (arith, v.steps);
    logs = ground (arith, v.logs);
  }

  log_top-Inv : (l : Listener) → Inv ds dm dk l → Inv ds dm dk (log_top l.context_stack l)
  unfolding log_top log_step log_of
  log_top-Inv l v = record {
    storage = ground (arith, v.storage);
    memory = ground (arith, v.memory);
    stack = ground (arith, v.stack);
    steps = ground (arith, v.steps);
    logs = ground (arith, v.steps, v.logs, v.storage, v.memory, v.stack);
  }

  pass_on-steps :
      (k : Bool) (c : Context) (cs : List Context)
      → AllSteps dm dk cs
      → AllSteps dm dk (pass_on k c cs)
  unfolding pass_on
  pass_on-steps k c [] h = h
  pass_on-steps false c (p ∷ cs) h = h
  pass_on-steps true c (p ∷ cs) h = (subst (StepOk dm dk) (sym (apply_changes-step _ p)) (h.0), h.1)

  exit_top-Inv :
      (reason : ExitReason) (v : Bytes) (l : Listener)
      → Inv ds dm dk l
      → (cs : List Context) → AllSteps dm dk cs
      → Inv ds dm dk (exit_top reason v cs l)
  unfolding exit_top
  exit_top-Inv reason v l i [] h = i
  exit_top-Inv reason v l i (c ∷ cs) h = record {
    storage = i.storage;
    memory = i.memory;
    stack = i.stack;
    steps = pass_on-steps _ c cs (h.1);
    logs = i.logs;
  }

  begin-Inv :
      (b : Bool) (l : Listener) → Inv ds dm dk l → Inv ds dm dk (record l { new_context = b })
  begin-Inv b l i = record {
    storage = i.storage;
    memory = i.memory;
    stack = i.stack;
    steps = i.steps;
    logs = i.logs;
  }

  after_trap-Inv :
      (t : Option ContextType) (l : Listener) → Inv ds dm dk l → Inv ds dm dk (after_trap t l)
  unfolding after_trap
  after_trap-Inv none l i = i
  after_trap-Inv (some t) l i = begin-Inv true l i

  end_step-Inv :
      (r : Result (Unit {0}) Capture) (v : Bytes) (l : Listener)
      → Inv ds dm dk l
      → Inv ds dm dk (end_step r v l)
  unfolding end_step
  end_step-Inv (ok done) v l i = i
  end_step-Inv (err (Capture.exit reason)) v l i = exit_top-Inv reason v l i l.context_stack i.steps
  end_step-Inv (err (Capture.trap opcode)) v l i = after_trap-Inv (from_opcode opcode) l i

  with_step-Inv :
      (o : Bytes) (d p : ℕ) (m : Option (Option Bytes)) (s : Option (Option (List H256)))
      (c : Context) (cs : List Context) (l : Listener)
      → 1 ≤ d
      → ((a : Option Bytes) → m ≡ some a → is_none a ≡ dm)
      → ((a : Option (List H256)) → s ≡ some a → is_none a ≡ dk)
      → AllSteps dm dk cs
      → Inv ds dm dk l
      → InvIf ds dm dk (put_top cs l (with_step o d p m s c))
  unfolding put_top with_step
  with_step-Inv o d p none s c cs l deep hm hs h i = tt
  with_step-Inv o d p (some a) none c cs l deep hm hs h i = tt
  with_step-Inv o d p (some a) (some b) c cs l deep hm hs h i = record {
    storage = i.storage;
    memory = i.memory;
    stack = i.stack;
    steps = ((hm a refl, hs b refl, deep), h);
    logs = i.logs;
  }

  step_at-Inv :
      (o : Bytes) (p : ℕ) (s : Option Stack) (m : Option Memory) (cs : List Context) (l : Listener)
      → AllSteps dm dk cs
      → Inv ds dm dk l
      → InvIf ds dm dk (step_at o p s m cs l)
  unfolding step_at
  step_at-Inv o p s m [] l h i = i
  step_at-Inv o p s m (c ∷ cs) l h i =
      with_step-Inv o _ p _ _ c cs l (omega arith)
        (λ a e. kept_lem l.disable_memory (λ x. x.bytes) m a e ∙ i.memory)
        (λ a e. kept_lem l.disable_stack (λ x. x.items) s a e ∙ i.stack) (h.1) i

  begin_context-Inv :
      (c : EvmContext) (l : Listener) → Inv ds dm dk l → Inv ds dm dk (begin_context c l)
  unfolding begin_context
  begin_context-Inv c l i = record {
    storage = ground (arith, i.storage);
    memory = ground (arith, i.memory);
    stack = ground (arith, i.stack);
    steps = ground (arith, i.steps);
    logs = ground (arith, i.logs);
  }

  store-Inv :
      (k v : H256) (l : Listener) → Inv ds dm dk l → Inv ds dm dk (store k v l.context_stack l)
  unfolding store
  store-Inv k v l i = record {
    storage = ground (arith, i.storage);
    memory = ground (arith, i.memory);
    stack = ground (arith, i.stack);
    steps = ground (arith, i.steps);
    logs = ground (arith, i.logs);
  }

  runtime_event-Inv :
      (e : RuntimeEvent) (l : Listener) → Inv ds dm dk l → InvIf ds dm dk (runtime_event e l)
  unfolding runtime_event
  runtime_event-Inv (RuntimeEvent.step c o p s m) l i =
      let begun = begin_context-Inv c l i in
      step_at-Inv o _ s m (begin_context c l).context_stack (begin_context c l) begun.steps begun
  runtime_event-Inv (RuntimeEvent.step_result r v) l i =
      end_step-Inv r v (log_top l.context_stack l) (log_top-Inv l i)
  runtime_event-Inv (RuntimeEvent.s_load a k v) l i = store-Inv k v l i
  runtime_event-Inv (RuntimeEvent.s_store a k v) l i = store-Inv k v l i

  event-Inv : (e : Event) (l : Listener) → Inv ds dm dk l → InvIf ds dm dk (event e l)
  unfolding event
  event-Inv (Event.gasometer e) l i = gasometer_event-Inv e l i
  event-Inv (Event.runtime e) l i = runtime_event-Inv e l i
  event-Inv (Event.evm e) l i = i
  event-Inv Event.call_list_new l i = i

  events-Inv :
      (es : List Event) (l m : Listener) → Inv ds dm dk l → events es l ≡ some m → Inv ds dm dk m
  unfolding events
  events-Inv [] l m i e = subst (Inv ds dm dk) (some-injective _ _ e) i
  events-Inv (e ∷ es) l m i done = elim (Option-cases (event e l)) [
    | inl failed ↦ absurd (ground (arith, failed, done))
    | inr (n, next) ↦
        events-Inv es n m (subst (InvIf ds dm dk) next (event-Inv e l i))
          (rw (next, events) at done)
  ]

  -- Whatever events a listener that has not panicked has been fed with: each of its logs has the
  -- storage, the memory and the stack exactly if they are not disabled, and a depth of at least one.
  pub events-logs :
      (es : List Event) (l : Listener)
      → events es (new ds dm dk) ≡ some l
      → AllLogs ds dm dk l.step_logs
  events-logs es l done =
      (events-Inv es (new ds dm dk) l
        (record { storage = refl; memory = refl; stack = refl; steps = tt; logs = tt }) done).logs
