-- ===== src/Tracing/CallTracer/Levels.antt =====
-- Trees of entries: the items of a tree in preorder, its levels, and the nested call that it is.
use mathlib.Core.List.{append_assoc, append-nil}
use edgeware_node.Prelude.{
  ℕ, zero, suc, ◌+◌, ◌≤◌, ◌<◌, ◌≡◌, refl, sym, ap, ◌∙◌, List, [], ◌∷◌, ◌++◌, Option, none, some,
  true, false, arith, ◌==◌, length, length-append, keep,
}
use edgeware_node.Prelude.All.{All, All-append, All-keep, All-mono, keep_none, keep-append}
use edgeware_node.Tracing.Types.{BlockscoutCall}
use edgeware_node.Tracing.CallTracer.{
  CallTracerCall, call_tracer_call, Calls, no_calls, more_calls, tracer_inner, address_of,
  sibling_greater_than, is_less,
}
use edgeware_node.Tracing.CallTracer.Sorted.{depth, Precedes, Ordered, Ordered-append}

mutual
  pub data Node : Type 0 where
    node : BlockscoutCall → Nodes → Node

  pub data Nodes : Type 0 where
    end : Nodes
    next : Node → Nodes → Nodes

-- What the formatter says of an entry, at an address or without one, with these calls.
abbrev pub said : BlockscoutCall → Option (List ℕ) → Calls → CallTracerCall
said b address calls =
    call_tracer_call b.from address b.gas b.gas_used (tracer_inner b.value b.inner) calls

abbrev mutual
  pub nested_call : Node → CallTracerCall
  nested_call (node b ns) = said b none (nested_calls ns)

  pub nested_calls : Nodes → Calls
  nested_calls end = no_calls
  nested_calls (next t ns) = more_calls (nested_call t) (nested_calls ns)

-- The items in preorder.
abbrev mutual
  pub items : List ℕ → Node → List CallTracerCall
  items a (node b ns) = said b (some a) no_calls ∷ items_below a 0 ns

  pub items_below : List ℕ → ℕ → Nodes → List CallTracerCall
  items_below a i end = []
  items_below a i (next t ns) = items (a ++ i ∷ []) t ++ items_below a (suc i) ns

-- The items of the level `k` of a tree, before their calls are pushed and after.
abbrev mutual
  pub level : ℕ → List ℕ → Node → List CallTracerCall
  level zero a (node b ns) = said b (some a) no_calls ∷ []
  level (suc k) a (node b ns) = level_below k a 0 ns

  pub level_below : ℕ → List ℕ → ℕ → Nodes → List CallTracerCall
  level_below k a i end = []
  level_below k a i (next t ns) = level k (a ++ i ∷ []) t ++ level_below k a (suc i) ns

abbrev mutual
  pub full : ℕ → List ℕ → Node → List CallTracerCall
  full zero a (node b ns) = said b (some a) (nested_calls ns) ∷ []
  full (suc k) a (node b ns) = full_below k a 0 ns

  pub full_below : ℕ → List ℕ → ℕ → Nodes → List CallTracerCall
  full_below k a i end = []
  full_below k a i (next t ns) = full k (a ++ i ∷ []) t ++ full_below k a (suc i) ns

mutual
  pub length-full : (k : ℕ) (a : List ℕ) (t : Node) → length (full k a t) ≡ length (level k a t)
  length-full zero a (node b ns) = refl
  length-full (suc k) a (node b ns) = length-full_below k a 0 ns

  length-full_below :
      (k : ℕ) (a : List ℕ) (i : ℕ) (ns : Nodes)
      → length (full_below k a i ns) ≡ length (level_below k a i ns)
  length-full_below k a i end = refl
  length-full_below k a i (next t ns) = omega (
    arith,
    length-append (full k (a ++ i ∷ []) t) (full_below k a (suc i) ns),
    length-append (level k (a ++ i ∷ []) t) (level_below k a (suc i) ns),
    length-full k (a ++ i ∷ []) t,
    length-full_below k a (suc i) ns,
  )

-- Where the items stand.
abbrev pub Under : List ℕ → CallTracerCall → Type 0
Under a x = (s : List ℕ) × (address_of x ≡ a ++ s)

abbrev pub Beyond : List ℕ → ℕ → CallTracerCall → Type 0
Beyond a i x = (j : ℕ) × (s : List ℕ) × (i ≤ j) × (address_of x ≡ a ++ j ∷ s)

mutual
  pub items-Under : (a : List ℕ) (t : Node) → All (Under a) (items a t)
  items-Under a (node b ns) = (
    ([], sym (append-nil a)),
    All-mono (Beyond a 0) (Under a) (λ x h. (h.0 ∷ h.1, h.3)) (items_below a 0 ns)
        (items_below-Beyond a 0 ns),
  )

  pub items_below-Beyond : (a : List ℕ) (i : ℕ) (ns : Nodes) → All (Beyond a i) (items_below a i ns)
  items_below-Beyond a i end = tt
  items_below-Beyond a i (next t ns) =
      All-append (Beyond a i) (items (a ++ i ∷ []) t) _
        (All-mono (Under (a ++ i ∷ [])) (Beyond a i)
          (λ x h. (i, h.0, omega arith, h.1 ∙ append_assoc a (i ∷ []) (h.0))) _
          (items-Under (a ++ i ∷ []) t))
        (All-mono (Beyond a (suc i)) (Beyond a i) (λ x h. (h.0, h.1, omega arith, h.3)) _
          (items_below-Beyond a (suc i) ns))

depth-Beyond : (a : List ℕ) (i : ℕ) (x : CallTracerCall) → Beyond a i x → length a < depth x
depth-Beyond a i x (j, s, le, e) = omega (arith, ap length e, length-append a (j ∷ s))

-- The levels are the items of one depth.
mutual
  pub level-keep :
      (k n : ℕ) (a : List ℕ) (t : Node)
      → n ≡ length a + k
      → keep (λ x. depth x == n) (items a t) ≡ level k a t
  level-keep zero n a (node b ns) e =
      let at : (length a == n) ≡ true = ground arith in
      rw at (
        ap (◌∷◌ (said b (some a) no_calls)) (
          keep_none (λ x. depth x == n) (items_below a 0 ns)
            (All-mono (Beyond a 0) _ (λ x h. ground (arith, depth-Beyond a 0 x h)) _
              (items_below-Beyond a 0 ns))))
  level-keep (suc k) n a (node b ns) e =
      let at : (length a == n) ≡ false = ground arith in rw at (level_below-keep k n a 0 ns e)

  level_below-keep :
      (k n : ℕ) (a : List ℕ) (i : ℕ) (ns : Nodes)
      → n ≡ length a + suc k
      → keep (λ x. depth x == n) (items_below a i ns) ≡ level_below k a i ns
  level_below-keep k n a i end e = refl
  level_below-keep k n a i (next t ns) e =
      rw (keep-append (λ x. depth x == n) (items (a ++ i ∷ []) t) (items_below a (suc i) ns)) (
        rw
          (
            level-keep k n (a ++ i ∷ []) t (omega (arith, length-append a (i ∷ []))),
            level_below-keep k n a (suc i) ns e,
          )
          refl)

sibling_greater_than-later :
    (a s s' : List ℕ) (i j : ℕ) → i < j → sibling_greater_than (a ++ j ∷ s') (a ++ i ∷ s) ≡ true
unfolding sibling_greater_than
sibling_greater_than-later [] s s' i j lt = ground arith
sibling_greater_than-later (x ∷ a) s s' i j lt =
    ground (arith, sibling_greater_than-later a s s' i j lt)

-- A greater sibling, and what is below it, is above among the items of one level.
is_less-later :
    (a s s' : List ℕ) (i j : ℕ)
    → i < j
    → length (a ++ i ∷ s) ≡ length (a ++ j ∷ s')
    → is_less (a ++ j ∷ s') (a ++ i ∷ s) ≡ true
unfolding is_less
is_less-later a s s' i j lt e = ground (arith, sibling_greater_than-later a s s' i j lt)

Under-Precedes :
    (a : List ℕ) (i : ℕ) (x y : CallTracerCall)
    → Under (a ++ i ∷ []) x
    → Beyond a (suc i) y
    → Precedes x y
Under-Precedes a i x y (s, at) (j, s', le, e) same =
    let at' : address_of x ≡ a ++ i ∷ s = at ∙ append_assoc a (i ∷ []) s in
    rw (at', e) (is_less-later a s s' i j le (sym (ap length at') ∙ (same ∙ ap length e)))

-- Preorder is the order of the addresses.
mutual
  pub items-Ordered : (a : List ℕ) (t : Node) → Ordered (items a t)
  items-Ordered a (node b ns) = (
    All-mono (Beyond a 0) _ (λ x h same. absurd (omega (arith, depth-Beyond a 0 x h)))
        (items_below a 0 ns) (items_below-Beyond a 0 ns),
    items_below-Ordered a 0 ns,
  )

  items_below-Ordered : (a : List ℕ) (i : ℕ) (ns : Nodes) → Ordered (items_below a i ns)
  items_below-Ordered a i end = tt
  items_below-Ordered a i (next t ns) =
      Ordered-append (items (a ++ i ∷ []) t) (items_below a (suc i) ns)
        (items-Ordered (a ++ i ∷ []) t) (items_below-Ordered a (suc i) ns)
        (All-mono (Under (a ++ i ∷ [])) _
          (λ x under.
            All-mono (Beyond a (suc i)) (Precedes x) (λ y. Under-Precedes a i x y under) _
              (items_below-Beyond a (suc i) ns))
          _ (items-Under (a ++ i ∷ []) t))

-- The items of a level, as items of the tree.
pub level_below-Beyond :
    (k : ℕ) (a : List ℕ) (i : ℕ) (ns : Nodes) → All (Beyond a i) (level_below k a i ns)
level_below-Beyond k a i ns =
    rw (← level_below-keep k (length a + suc k) a i ns refl)
      (All-keep (Beyond a i) _ (items_below a i ns) (items_below-Beyond a i ns))
