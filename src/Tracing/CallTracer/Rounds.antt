-- ===== src/Tracing/CallTracer/Rounds.antt =====
-- The loop ends for every transaction with one root, whatever the other addresses are.
use edgeware_node.Prelude.{
  ℕ, zero, suc, ◌<◌, ◌≡◌, refl, ap, ◌∙◌, ◌⊎◌, inl, inr, List, [], ◌∷◌, ◌++◌, none, some, true,
  false, arith, ltb, length, length-append, Bool-cases,
}
use edgeware_node.Prelude.Text.{bytes_eq}
use edgeware_node.Prelude.All.{All}
use edgeware_node.Tracing.CallTracer.{
  CallTracerCall, call_tracer_call, address_of, parent_address, push_call, without_address, attach,
  pop_and_push, nest, nested, is_less, insert_item, sort_items,
}
use edgeware_node.Tracing.CallTracer.Sorted.{depth}
use edgeware_node.Tracing.CallTracer.Whole.{length-sort_items}

abbrev pub IsBelowRoot : CallTracerCall → Type 0
IsBelowRoot x = 0 < depth x

-- `xs` is as long a list of items below the root as `us`, with a root after it.
abbrev IsRooted : List CallTracerCall → List CallTracerCall → Type 0
IsRooted us ys =
    (vs : List CallTracerCall) × (r : CallTracerCall) × (ys ≡ vs ++ r ∷ [])
    × (length vs ≡ length us)
    × All IsBelowRoot vs
    × (depth r ≡ 0)

address_of-push_call : (c x : CallTracerCall) → address_of (push_call c x) ≡ address_of x
unfolding push_call
address_of-push_call c (call_tracer_call from (some a) gas gas_used inner calls) = refl
address_of-push_call c (call_tracer_call from none gas gas_used inner calls) = refl

parent_address-below : (a : List ℕ) → 0 < length a → (p : List ℕ) × (parent_address a ≡ some p)
unfolding parent_address
parent_address-below [] h = absurd (omega arith)
parent_address-below (i ∷ []) h = ([], refl)
parent_address-below (i ∷ j ∷ a) h =
    let (p, e) = parent_address-below (j ∷ a) (omega arith) in (i ∷ p, rw e)

attach-IsRooted :
    (p : List ℕ) (c : CallTracerCall) (us : List CallTracerCall) (x : CallTracerCall)
    → All IsBelowRoot us
    → depth x ≡ 0
    → (attach p c (us ++ x ∷ []) ≡ none)
      ⊎ ((ys : List CallTracerCall) × (attach p c (us ++ x ∷ []) ≡ some ys) × IsRooted us ys)
unfolding attach
attach-IsRooted p c [] x h root = elim (Bool-cases (bytes_eq (address_of x) p)) [
  | inl at ↦ inr (
    push_call c x ∷ [],
    rw at,
    ([], push_call c x, refl, refl, tt, ap length (address_of-push_call c x) ∙ root),
  )
  | inr other ↦ inl (rw other)
]
attach-IsRooted p c (u ∷ us) x h root = elim (attach-IsRooted p c us x (h.1) root) [
  | inr (ys, e, (vs, r, shape, same, below, top)) ↦
      inr (u ∷ ys, rw e, (u ∷ vs, r, ap (◌∷◌ u) shape, ap suc same, (h.0, below), top))
  | inl e ↦ elim (Bool-cases (bytes_eq (address_of u) p)) [
    | inl at ↦ inr (
      push_call c u ∷ (us ++ x ∷ []),
      rw (e, at),
      (push_call c u ∷ us, x, refl, refl, (rw (address_of-push_call c u) (h.0), h.1), root),
    )
    | inr other ↦ inl (rw (e, other))
  ]
]

pop_and_push-IsRooted :
    (u : CallTracerCall) (us : List CallTracerCall) (x : CallTracerCall)
    → IsBelowRoot u
    → All IsBelowRoot us
    → depth x ≡ 0
    → (ys : List CallTracerCall) × (pop_and_push u (us ++ x ∷ []) ≡ some ys) × IsRooted us ys
unfolding pop_and_push
pop_and_push-IsRooted u us x below h root =
    let (p, e) = parent_address-below (address_of u) below in
    elim (attach-IsRooted p (without_address u) us x h root) [
      | inl lost ↦ (us ++ x ∷ [], rw (e, lost, pop_and_push), (us, x, refl, refl, h, root))
      | inr (ys, found, rooted) ↦ (ys, rw (e, found, pop_and_push), rooted)
    ]

length-filled :
    (us : List CallTracerCall) (x : CallTracerCall) → ltb 0 (length (us ++ x ∷ [])) ≡ true
length-filled us x = ground (arith, length-append us (x ∷ []))

nest-root :
    (n : ℕ) (us : List CallTracerCall) (x : CallTracerCall)
    → length us ≡ n
    → All IsBelowRoot us
    → depth x ≡ 0
    → (r : CallTracerCall) × (nest (suc n) (us ++ x ∷ []) ≡ some (r ∷ [])) × (depth r ≡ 0)
unfolding nest
nest-root n [] x e h root = (x, refl, root)
nest-root zero (u ∷ us) x e h root = absurd (omega arith)
nest-root (suc n) (u ∷ us) x e h root =
    let (ys, step, (vs, r, shape, same, below, top)) =
      pop_and_push-IsRooted u us x (h.0) (h.1) root in
    let (last, done, at) = nest-root n vs r (omega (arith, same)) below top in
    (last, rw (length-filled us x, step, shape) done, at)

insert_item-All :
    (x : CallTracerCall) (ys : List CallTracerCall)
    → IsBelowRoot x
    → All IsBelowRoot ys
    → All IsBelowRoot (insert_item x ys)
unfolding insert_item
insert_item-All x [] b h = (b, tt)
insert_item-All x (y ∷ ys) b h = elim (Bool-cases (is_less (address_of y) (address_of x))) [
  | inl e ↦ rw e (b, h)
  | inr e ↦ rw e (h.0, insert_item-All x ys b (h.1))
]

sort_items-All : (xs : List CallTracerCall) → All IsBelowRoot xs → All IsBelowRoot (sort_items xs)
unfolding sort_items
sort_items-All [] h = tt
sort_items-All (x ∷ xs) h = insert_item-All x (sort_items xs) (h.0) (sort_items-All xs (h.1))

is_less-root : (a b : List ℕ) → length b ≡ 0 → 0 < length a → is_less a b ≡ false
unfolding is_less
is_less-root a b e h = ground arith

insert_item-root :
    (x : CallTracerCall) (ys : List CallTracerCall)
    → depth x ≡ 0
    → All IsBelowRoot ys
    → insert_item x ys ≡ ys ++ x ∷ []
unfolding insert_item
insert_item-root x [] root h = refl
insert_item-root x (y ∷ ys) root h =
    rw (is_less-root (address_of y) (address_of x) root (h.0))
      (ap (◌∷◌ y) (insert_item-root x ys root (h.1)))

-- If one item of a transaction is at the empty address, the first, and no other, then the loop
-- ends within its rounds without a panic and leaves one item, at the empty address. The other
-- addresses may be any, also those of items without a parent, and may occur twice.
pub nested-one :
    (x : CallTracerCall) (xs : List CallTracerCall)
    → depth x ≡ 0
    → All IsBelowRoot xs
    → (r : CallTracerCall) × (nested (x ∷ xs) ≡ some (r ∷ [])) × (depth r ≡ 0)
unfolding nested sort_items
nested-one x [] root h = (x, refl, root)
nested-one x (y ∷ ys) root h =
    let xs = y ∷ ys in
    let sorted = insert_item-root x (sort_items xs) root (sort_items-All xs h) in
    let (r, done, at) =
      nest-root (length xs) (sort_items xs) x (length-sort_items xs) (sort_items-All xs h) root in
    let two : ltb 1 (length (x ∷ xs)) ≡ true = ground arith in (r, rw (two, sorted) done, at)
