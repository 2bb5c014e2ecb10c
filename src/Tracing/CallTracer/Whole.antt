-- ===== src/Tracing/CallTracer/Whole.antt =====
-- The loop, level by level up to the root: the items of a tree become the nested call.
use Prim.Native.Nat.{max}
use mathlib.Core.List.{append-nil}
use edgeware_node.Prelude.{
  ℕ, zero, suc, ◌≤◌, ◌<◌, ◌≡◌, refl, sym, ap, ◌∙◌, List, [], ◌∷◌, ◌++◌, some, true, arith, ◌==◌,
  ltb, length,
}
use edgeware_node.Prelude.All.{All, All-append, All-mono, keep_none, keep-passes}
use edgeware_node.Tracing.CallTracer.{
  CallTracerCall, address_of, nest, nested, sort_items, insert_item,
}
use edgeware_node.Tracing.CallTracer.Sorted.{depth, by_depth, sort_items-by_depth}
use edgeware_node.Tracing.CallTracer.Levels.{
  Node, node, end, next, items, level, full, length-full, level-keep, items-Ordered,
}
use edgeware_node.Tracing.CallTracer.Nesting.{
  bytes_eq-length, rounds, rounds_lem, rounds-append, Avoids, nest-level,
}

-- The levels above `k`, the deepest first.
abbrev above : ℕ → Node → List CallTracerCall
above zero t = []
above (suc k) t = level k [] t ++ above k t

above-bound : (k : ℕ) (t : Node) → All (λ x. depth x < k) (above k t)
above-bound zero t = tt
above-bound (suc k) t =
    All-append _ (level k [] t) (above k t)
      (rw (← level-keep k k [] t (omega arith))
        (All-mono _ _ (λ x at. ground arith) _ (keep-passes (λ x. depth x == k) (items [] t))))
      (All-mono _ _ (λ x h. omega arith) _ (above-bound k t))

above-Avoids : (k : ℕ) (t : Node) → Avoids k [] (above k t)
above-Avoids k t s e =
    All-mono _ _ (λ x h. bytes_eq-length (address_of x) s (omega (arith, e))) _ (above-bound k t)

rounds-full : (k : ℕ) (t : Node) (n : ℕ) → rounds (full k [] t) n ≡ rounds (level k [] t) n
rounds-full k t n =
    omega (arith, rounds_lem (full k [] t) n, rounds_lem (level k [] t) n, length-full k [] t)

-- From a complete level to the root.
nest-above :
    (k : ℕ) (t : Node)
    → nest (rounds (full k [] t) (rounds (above k t) 0)) (full k [] t ++ above k t)
      ≡ some (full 0 [] t)
unfolding nest
nest-above zero (node b ns) = refl
nest-above (suc k) t =
    nest-level (rounds (above (suc k) t) 0) k [] t [] (above k t) (above-Avoids k t)
    ∙ rw (rounds-append (level k [] t) (above k t) 0, ← rounds-full k t (rounds (above k t) 0))
        (nest-above k t)

by_depth-above : (k : ℕ) (t : Node) → by_depth k (items [] t) ≡ above (suc k) t
by_depth-above zero t = rw (append-nil (level 0 [] t)) (level-keep 0 0 [] t (omega arith))
by_depth-above (suc k) t =
    rw (level-keep (suc k) (suc k) [] t (omega arith), by_depth-above k t) refl

abbrev deepest : List CallTracerCall → ℕ
deepest [] = 0
deepest (x ∷ xs) = max (depth x) (deepest xs)

deepest_lem : (xs : List CallTracerCall) → All (λ x. depth x ≤ deepest xs) xs
deepest_lem [] = tt
deepest_lem (x ∷ xs) = (omega arith, All-mono _ _ (λ y h. omega arith) xs (deepest_lem xs))

length-zero : (xs : List CallTracerCall) → length xs ≡ 0 → xs ≡ []
length-zero [] e = refl
length-zero (x ∷ xs) e = absurd (omega arith)

-- Below the deepest level there is nothing.
full-below_deepest :
    (k : ℕ) (t : Node) → All (λ x. depth x ≤ k) (items [] t) → full (suc k) [] t ≡ []
full-below_deepest k t h =
    let none_left =
      keep_none (λ x. depth x == suc k) (items [] t) (All-mono _ _ (λ x le. ground arith) _ h) in
    length-zero (full (suc k) [] t) (
      length-full (suc k) [] t
      ∙ ap length (sym (level-keep (suc k) (suc k) [] t (omega arith)) ∙ none_left))

nest-sorted :
    (k : ℕ) (t : Node)
    → All (λ x. depth x ≤ k) (items [] t)
    → nest (length (above (suc k) t)) (above (suc k) t) ≡ some (full 0 [] t)
nest-sorted k t h =
    let all = above (suc k) t in
    let fuel : length all ≡ rounds all 0 = omega (arith, rounds_lem all 0) in
    let start =
      rw (full-below_deepest k t h) at
        (nest-level (rounds all 0) k [] t [] (above k t) (above-Avoids k t)) in
    ap (λ n. nest n all) fuel
    ∙ (start
        ∙ rw (rounds-append (level k [] t) (above k t) 0, ← rounds-full k t (rounds (above k t) 0))
            (nest-above k t))

length-insert_item :
    (x : CallTracerCall) (ys : List CallTracerCall) → length (insert_item x ys) ≡ suc (length ys)
unfolding insert_item
length-insert_item x [] = refl
length-insert_item x (y ∷ ys) = ground (arith, length-insert_item x ys)

pub length-sort_items : (xs : List CallTracerCall) → length (sort_items xs) ≡ length xs
unfolding sort_items
length-sort_items [] = refl
length-sort_items (x ∷ xs) = length-insert_item x (sort_items xs) ∙ ap suc (length-sort_items xs)

-- The items of a tree in preorder become the nested call of the tree.
pub nested-items : (t : Node) → nested (items [] t) ≡ some (full 0 [] t)
unfolding nested
nested-items (node b end) = refl
nested-items (node b (next (node c ms) ns)) =
    let t = node b (next (node c ms) ns) in
    let k = deepest (items [] t) in
    let sorted : sort_items (items [] t) ≡ above (suc k) t =
      sort_items-by_depth k (items [] t) (deepest_lem (items [] t)) (items-Ordered [] t)
      ∙ by_depth-above k t in
    let size : length (items [] t) ≡ length (above (suc k) t) =
      sym (length-sort_items (items [] t)) ∙ ap length sorted in
    let two : ltb 1 (length (items [] t)) ≡ true = ground arith in
    rw (two, sorted, size) (nest-sorted k t (deepest_lem (items [] t)))
