-- ===== src/Tracing/CallTracer/Nesting.antt =====
-- The loop that pops the sorted items: a level is pushed to the level above it.
use mathlib.Core.List.{append_assoc, append-nil}
use edgeware_node.Prelude.{
  ℕ, zero, suc, ◌+◌, ◌≤◌, ◌<◌, ◌≡◌, refl, ap, ◌∙◌, List, [], ◌∷◌, ◌++◌, Option, none, some, true,
  false, arith, ltb, length, length-append,
}
use edgeware_node.Prelude.Text.{bytes_eq}
use edgeware_node.Prelude.All.{All, All-append, All-mono}
use edgeware_node.Tracing.CallTracer.{
  CallTracerCall, Calls, no_calls, more_calls, address_of, parent_address, push_last, push_call,
  without_address, attach, pop_and_push, nest,
}
use edgeware_node.Tracing.Types.{BlockscoutCall}
use edgeware_node.Tracing.CallTracer.Levels.{
  Node, node, Nodes, end, next, said, nested_call, nested_calls, level, level_below, full,
  full_below, Beyond, level_below-Beyond,
}

-- No item of the list is at the address.
abbrev pub Misses : List ℕ → List CallTracerCall → Type 0
Misses p = All (λ x. bytes_eq (address_of x) p ≡ false)

bytes_eq_refl : (a : List ℕ) → bytes_eq a a ≡ true
unfolding bytes_eq
bytes_eq_refl [] = refl
bytes_eq_refl (x ∷ a) = ground (arith, bytes_eq_refl a)

pub bytes_eq-length : (a b : List ℕ) → length a < length b → bytes_eq a b ≡ false
unfolding bytes_eq
bytes_eq-length [] [] h = absurd (omega arith)
bytes_eq-length [] (y ∷ b) h = refl
bytes_eq-length (x ∷ a) [] h = refl
bytes_eq-length (x ∷ a) (y ∷ b) h = ground (arith, bytes_eq-length a b (omega arith))

bytes_eq-sibling : (a s s' : List ℕ) (i j : ℕ) → i < j → bytes_eq (a ++ j ∷ s') (a ++ i ∷ s) ≡ false
unfolding bytes_eq
bytes_eq-sibling [] s s' i j h = ground arith
bytes_eq-sibling (x ∷ a) s s' i j h = ground (arith, bytes_eq-sibling a s s' i j h)

parent_address-child : (a : List ℕ) (i : ℕ) → parent_address (a ++ i ∷ []) ≡ some a
unfolding parent_address
parent_address-child [] i = refl
parent_address-child (x ∷ []) i = refl
parent_address-child (x ∷ y ∷ a) i = rw (parent_address-child (y ∷ a) i)

attach-Misses :
    (p : List ℕ) (c : CallTracerCall) (xs : List CallTracerCall)
    → Misses p xs
    → attach p c xs ≡ none
unfolding attach
attach-Misses p c [] h = refl
attach-Misses p c (x ∷ xs) h = rw (attach-Misses p c xs (h.1), h.0)

attach-behind :
    (p : List ℕ) (c : CallTracerCall) (us xs ys : List CallTracerCall)
    → attach p c xs ≡ some ys
    → attach p c (us ++ xs) ≡ some (us ++ ys)
unfolding attach
attach-behind p c [] xs ys h = h
attach-behind p c (u ∷ us) xs ys h = rw (attach-behind p c us xs ys h)

-- The parent is found behind the items that are in the vector after it.
attach-parent :
    (p : List ℕ) (c x : CallTracerCall) (us mid rest : List CallTracerCall)
    → address_of x ≡ p
    → Misses p rest
    → attach p c (us ++ (mid ++ x ∷ rest)) ≡ some (us ++ (mid ++ push_call c x ∷ rest))
unfolding attach
attach-parent p c x us mid rest e h =
    attach-behind p c us _ _
      (attach-behind p c mid _ _ (rw (attach-Misses p c rest h, e, bytes_eq_refl p)))

length-filled :
    (us mid : List CallTracerCall) (x : CallTracerCall) (rest : List CallTracerCall)
    → ltb 0 (length (us ++ (mid ++ x ∷ rest))) ≡ true
length-filled us mid x rest =
    ground (arith, length-append us (mid ++ x ∷ rest), length-append mid (x ∷ rest))

abbrev pub join : Calls → Calls → Calls
join no_calls ds = ds
join (more_calls c cs) ds = more_calls c (join cs ds)

join-no_calls : (cs : Calls) → join cs no_calls ≡ cs
join-no_calls no_calls = refl
join-no_calls (more_calls c cs) = ap (more_calls c) (join-no_calls cs)

join-push_last :
    (cs ds : Calls) (c : CallTracerCall) → join (push_last cs c) ds ≡ join cs (more_calls c ds)
unfolding push_last
join-push_last no_calls ds c = refl
join-push_last (more_calls x cs) ds c = ap (more_calls x) (join-push_last cs ds c)

-- A round for each item of the list, and then `n` more.
abbrev pub rounds : List CallTracerCall → ℕ → ℕ
rounds [] n = n
rounds (x ∷ xs) n = suc (rounds xs n)

pub rounds_lem : (xs : List CallTracerCall) (n : ℕ) → rounds xs n ≡ length xs + n
rounds_lem [] n = omega arith
rounds_lem (x ∷ xs) n = omega (arith, rounds_lem xs n)

pub rounds-append :
    (xs ys : List CallTracerCall) (n : ℕ) → rounds (xs ++ ys) n ≡ rounds xs (rounds ys n)
rounds-append [] ys n = refl
rounds-append (x ∷ xs) ys n = ap suc (rounds-append xs ys n)

without_address-said :
    (b : BlockscoutCall) (o : Option (List ℕ)) (cs : Calls)
    → without_address (said b o cs) ≡ said b none cs
unfolding without_address
without_address-said b o cs = refl

-- The complete children of one item are pushed to it in order.
nest-children :
    (n : ℕ) (a : List ℕ) (i : ℕ) (ns : Nodes) (b : BlockscoutCall) (cs : Calls)
    (mid rest : List CallTracerCall)
    → Misses a rest
    → nest
        (rounds (full_below zero a i ns) n)
        (full_below zero a i ns ++ (mid ++ said b (some a) cs ∷ rest))
      ≡ nest n (mid ++ said b (some a) (join cs (nested_calls ns)) ∷ rest)
unfolding nest pop_and_push push_call
nest-children n a i end b cs mid rest h = rw (join-no_calls cs)
nest-children n a i (next (node c ms) ns) b cs mid rest h =
    let others = full_below zero a (suc i) ns in
    rw
      (
        length-filled others mid (said b (some a) cs) rest,
        parent_address-child a i,
        without_address-said c (some (a ++ i ∷ [])) (nested_calls ms),
        attach-parent a (nested_call (node c ms)) (said b (some a) cs) others mid rest refl h,
      )
      (nest-children n a (suc i) ns b (push_last cs (nested_call (node c ms))) mid rest h
        ∙ rw (join-push_last cs (nested_calls ns) (nested_call (node c ms))))

-- No item of `rest` is at an address of the level `k` of a tree, or of its children from `i` on.
abbrev pub Avoids : ℕ → List ℕ → List CallTracerCall → Type 0
Avoids k a rest = (s : List ℕ) → length s ≡ k → Misses (a ++ s) rest

abbrev AvoidsFrom : ℕ → List ℕ → ℕ → List CallTracerCall → Type 0
AvoidsFrom k a i rest = (j : ℕ) (s : List ℕ) → i ≤ j → length s ≡ k → Misses (a ++ j ∷ s) rest

level_below-Misses :
    (k : ℕ) (a : List ℕ) (i : ℕ) (ns : Nodes) (s : List ℕ)
    → Misses (a ++ i ∷ s) (level_below k a (suc i) ns)
level_below-Misses k a i ns s =
    All-mono (Beyond a (suc i)) _
      (λ x beyond. rw (beyond.3) (bytes_eq-sibling a s (beyond.1) i (beyond.0) (beyond.2))) _
      (level_below-Beyond k a (suc i) ns)

-- The complete items of a level are pushed to the items of the level above.
mutual
  pub nest-level :
      (n k : ℕ) (a : List ℕ) (t : Node) (mid rest : List CallTracerCall)
      → Avoids k a rest
      → nest (rounds (full (suc k) a t) n) (full (suc k) a t ++ (mid ++ (level k a t ++ rest)))
        ≡ nest n (mid ++ (full k a t ++ rest))
  nest-level n zero a (node b ns) mid rest h =
      nest-children n a 0 ns b no_calls mid rest (rw (append-nil a) at (h [] refl))
  nest-level n (suc k) a (node b ns) mid rest h =
      nest-level_below n k a 0 ns mid rest (λ j s le e. h (j ∷ s) (ap suc e))

  nest-level_below :
      (n k : ℕ) (a : List ℕ) (i : ℕ) (ns : Nodes) (mid rest : List CallTracerCall)
      → AvoidsFrom k a i rest
      → nest
          (rounds (full_below (suc k) a i ns) n)
          (full_below (suc k) a i ns ++ (mid ++ (level_below k a i ns ++ rest)))
        ≡ nest n (mid ++ (full_below k a i ns ++ rest))
  nest-level_below n k a i end mid rest h = refl
  nest-level_below n k a i (next t ns) mid rest h =
      let f1 = full (suc k) (a ++ i ∷ []) t in
      let f2 = full_below (suc k) a (suc i) ns in
      let l1 = level k (a ++ i ∷ []) t in
      let l2 = level_below k a (suc i) ns in
      let done = full k (a ++ i ∷ []) t in
      let shape : (f1 ++ f2) ++ (mid ++ ((l1 ++ l2) ++ rest))
          ≡ f1 ++ ((f2 ++ mid) ++ (l1 ++ (l2 ++ rest))) =
        simp append_assoc in
      let later : (f2 ++ mid) ++ (done ++ (l2 ++ rest)) ≡ f2 ++ ((mid ++ done) ++ (l2 ++ rest)) =
        simp append_assoc in
      rw (rounds-append f1 f2 n, shape)
        (nest-level (rounds f2 n) k (a ++ i ∷ []) t (f2 ++ mid) (l2 ++ rest) (λ s e.
            rw (append_assoc a (i ∷ []) s)
              (All-append _ l2 rest (level_below-Misses k a i ns s) (h i s (omega arith) e)))
          ∙ rw later (
              nest-level_below n k a (suc i) ns (mid ++ done) rest
                (λ j s le e. h j s (omega arith) e)
              ∙ ap (nest n) (simp append_assoc)))
