-- ===== src/Tracing/CallTracer/Sorted.antt =====
-- Sorting a list that is in the order of the addresses puts its levels one after the other.
use edgeware_node.Prelude.{
  ℕ, zero, suc, ◌≤◌, ◌<◌, ◌≡◌, refl, ap, ◌∙◌, inl, inr, List, [], ◌∷◌, ◌++◌, true, false, arith,
  ◌==◌, length, keep, Bool-cases,
}
use edgeware_node.Prelude.All.{All, All-append, All-mono, keep-passes}
use edgeware_node.Tracing.CallTracer.{CallTracerCall, address_of, is_less, insert_item, sort_items}

abbrev pub depth : CallTracerCall → ℕ
depth x = length (address_of x)

abbrev pub IsAbove : CallTracerCall → CallTracerCall → Type 0
IsAbove y x = is_less (address_of y) (address_of x) ≡ true

-- `x` comes before `y` among the items of its own level.
abbrev pub Precedes : CallTracerCall → CallTracerCall → Type 0
Precedes x y = depth x ≡ depth y → IsAbove y x

abbrev pub Ordered : List CallTracerCall → Type 0
Ordered [] = Unit
Ordered (x ∷ xs) = All (Precedes x) xs × Ordered xs

-- The levels from the deepest, `k`, to the root.
abbrev pub by_depth : ℕ → List CallTracerCall → List CallTracerCall
by_depth zero xs = keep (λ x. depth x == 0) xs
by_depth (suc k) xs = keep (λ x. depth x == suc k) xs ++ by_depth k xs

is_less-shorter : (a b : List ℕ) → length a < length b → is_less a b ≡ true
unfolding is_less
is_less-shorter a b h = ground arith

is_less-longer : (a b : List ℕ) → length b < length a → is_less a b ≡ false
unfolding is_less
is_less-longer a b h = ground arith

insert_item-front :
    (x : CallTracerCall) (ys : List CallTracerCall)
    → All (λ y. IsAbove y x) ys
    → insert_item x ys ≡ x ∷ ys
unfolding insert_item
insert_item-front x [] h = refl
insert_item-front x (y ∷ ys) h = rw (h.0)

insert_item-past :
    (x : CallTracerCall) (us ys : List CallTracerCall)
    → All (λ u. depth x < depth u) us
    → insert_item x (us ++ ys) ≡ us ++ insert_item x ys
unfolding insert_item
insert_item-past x [] ys h = refl
insert_item-past x (u ∷ us) ys h =
    rw (is_less-longer (address_of u) (address_of x) (h.0))
      (ap (◌∷◌ u) (insert_item-past x us ys (h.1)))

-- What `by_depth` lists is not deeper than its bound.
by_depth-bound : (k : ℕ) (xs : List CallTracerCall) → All (λ x. depth x ≤ k) (by_depth k xs)
by_depth-bound zero xs = All-mono _ _ (λ x h. ground arith) (by_depth zero xs) (keep-passes _ xs)
by_depth-bound (suc k) xs =
    All-append _ _ (by_depth k xs)
      (All-mono _ _ (λ x h. ground arith) _ (keep-passes (λ x. depth x == suc k) xs))
      (All-mono _ _ (λ x h. omega arith) _ (by_depth-bound k xs))

by_depth-deeper :
    (k : ℕ) (x : CallTracerCall) (xs : List CallTracerCall)
    → k < depth x
    → by_depth k (x ∷ xs) ≡ by_depth k xs
by_depth-deeper zero x xs h = ground arith
by_depth-deeper (suc k) x xs h = ground (arith, by_depth-deeper k x xs)

-- The items of one level that `x` precedes are above it.
level-IsAbove :
    (k : ℕ) (x : CallTracerCall) (xs : List CallTracerCall)
    → depth x ≡ k
    → All (Precedes x) xs
    → All (λ y. IsAbove y x) (keep (λ y. depth y == k) xs)
level-IsAbove k x [] e h = tt
level-IsAbove k x (y ∷ ys) e h = elim (Bool-cases (depth y == k)) [
  | inl same ↦ rw same (h.0 (ground arith), level-IsAbove k x ys e (h.1))
  | inr other ↦ rw other (level-IsAbove k x ys e (h.1))
]

insert_item-by_depth :
    (k : ℕ) (x : CallTracerCall) (xs : List CallTracerCall)
    → depth x ≤ k
    → All (Precedes x) xs
    → insert_item x (by_depth k xs) ≡ by_depth k (x ∷ xs)
insert_item-by_depth zero x xs le h =
    let e : (depth x == 0) ≡ true = ground arith in
    rw e (insert_item-front x _ (level-IsAbove zero x xs (omega arith) h))
insert_item-by_depth (suc k) x xs le h = elim (Bool-cases (depth x == suc k)) [
  | inl e ↦
      let at : depth x ≡ suc k = ground arith in
      rw (e, by_depth-deeper k x xs (omega arith))
        (insert_item-front x _ (
          All-append _ (keep (λ y. depth y == suc k) xs) _ (level-IsAbove (suc k) x xs at h) (
            All-mono _ _ (λ y below. is_less-shorter (address_of y) (address_of x) (omega arith)) _
              (by_depth-bound k xs))))
  | inr e ↦ rw e (
      insert_item-past x (keep (λ y. depth y == suc k) xs) (by_depth k xs)
        (All-mono _ _ (λ y same. ground arith) _ (keep-passes (λ y. depth y == suc k) xs))
      ∙ ap (◌++◌ (keep (λ y. depth y == suc k) xs)) (insert_item-by_depth k x xs (ground arith) h))
]

by_depth-nil : (k : ℕ) → by_depth k [] ≡ []
by_depth-nil zero = refl
by_depth-nil (suc k) = by_depth-nil k

pub sort_items-by_depth :
    (k : ℕ) (xs : List CallTracerCall)
    → All (λ x. depth x ≤ k) xs
    → Ordered xs
    → sort_items xs ≡ by_depth k xs
unfolding sort_items
sort_items-by_depth k [] le h = rw (by_depth-nil k)
sort_items-by_depth k (x ∷ xs) le h =
    rw (sort_items-by_depth k xs (le.1) (h.1)) (insert_item-by_depth k x xs (le.0) (h.0))

pub Ordered-append :
    (xs ys : List CallTracerCall)
    → Ordered xs
    → Ordered ys
    → All (λ x. All (Precedes x) ys) xs
    → Ordered (xs ++ ys)
Ordered-append [] ys h k across = k
Ordered-append (x ∷ xs) ys h k across =
    (All-append _ xs ys (h.0) (across.0), Ordered-append xs ys (h.1) k (across.1))
