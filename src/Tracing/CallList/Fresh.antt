-- ===== src/Tracing/CallList/Fresh.antt =====
-- `entries` starts as an empty vector, and the first entry makes its first map. So a listener with
-- no map and one with an empty map cannot be told apart once something is inserted.
use edgeware_node.Prelude.{◌≡◌, refl, sym, ap, subst, ◌++◌, ◌⊎◌, inl, inr, List, [], ◌∷◌, arith}
use edgeware_node.BTreeMap.{BTreeMap}
use edgeware_node.Tracing.Types.{BlockscoutCall}
use edgeware_node.Tracing.Events.{Event, EvmEvent, RuntimeEvent, GasometerEvent}
use edgeware_node.Tracing.CallList.{
  Listener, event, events, gasometer_event, runtime_event, evm_event, transact, call_event,
  create_event, suicide_event, exit_event, pop_context_to_entry, insert_entry,
}

abbrev with_entries : List (BTreeMap BlockscoutCall) → Listener → Listener
with_entries es l = record l { entries = es }

-- `b` is `a`, or `a` with an empty map for no map.
abbrev pub Twin : Listener → Listener → Type 0
Twin a b = (a ≡ b) ⊎ ((a.entries ≡ []) × (b ≡ record a { entries = [] ∷ [] }))

module _ (l : Listener) where
  abbrev bare : Listener
  bare = with_entries [] l

  abbrev mapped : Listener
  mapped = with_entries ([] ∷ []) l

  gasometer-Twin : (e : GasometerEvent) → Twin (gasometer_event e bare) (gasometer_event e mapped)
  unfolding gasometer_event
  gasometer-Twin (GasometerEvent.record_cost c s) = inr (refl, refl)
  gasometer-Twin _ = inr (refl, refl)

  evm-Twin : (e : EvmEvent) → Twin (evm_event e bare) (evm_event e mapped)
  unfolding evm_event transact call_event create_event suicide_event exit_event insert_entry
      pop_context_to_entry
  evm-Twin (EvmEvent.transact_call a b c d g) = inr (refl, refl)
  evm-Twin _ = ground arith

  runtime-Twin : (e : RuntimeEvent) → Twin (runtime_event e bare) (runtime_event e mapped)
  unfolding runtime_event insert_entry pop_context_to_entry
  runtime-Twin (RuntimeEvent.s_load a b c) = inr (refl, refl)
  runtime-Twin _ = ground arith

-- Any event but the start of a transaction.
abbrev pub IsInner : Event → Type 0
IsInner Event.call_list_new = ⊥
IsInner (Event.evm e) = Unit {0}
IsInner (Event.gasometer e) = Unit {0}
IsInner (Event.runtime e) = Unit {0}

abbrev pub AllInner : List Event → Type 0
AllInner [] = Unit {0}
AllInner (e ∷ es) = IsInner e × AllInner es

pub AllInner-append : (xs ys : List Event) → AllInner xs → AllInner ys → AllInner (xs ++ ys)
AllInner-append [] ys h k = k
AllInner-append (x ∷ xs) ys h k = (h.0, AllInner-append xs ys h.1 k)

bare-Twin : (e : Event) (l : Listener) → IsInner e → Twin (event e (bare l)) (event e (mapped l))
unfolding event
bare-Twin Event.call_list_new l h = absurd h
bare-Twin (Event.evm e) l h = evm-Twin l e
bare-Twin (Event.gasometer e) l h = gasometer-Twin l e
bare-Twin (Event.runtime e) l h = runtime-Twin l e

event-Twin : (e : Event) (a b : Listener) → IsInner e → Twin a b → Twin (event e a) (event e b)
event-Twin e a b h (inl p) = inl (ap (event e) p)
event-Twin e a b h (inr (none_yet, p)) =
    let a-bare : a ≡ bare a = λ i. record a { entries = none_yet i } in
    subst (λ x. Twin (event e x) (event e b)) (sym a-bare)
      (subst (λ y. Twin (event e (bare a)) (event e y)) (sym p) (bare-Twin e a h))

pub events-Twin :
    (es : List Event) (a b : Listener) → AllInner es → Twin a b → Twin (events es a) (events es b)
unfolding events
events-Twin [] a b h t = t
events-Twin (e ∷ es) a b h t = events-Twin es (event e a) (event e b) h.1 (event-Twin e a b h.0 t)
