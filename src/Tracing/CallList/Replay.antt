-- ===== src/Tracing/CallList/Replay.antt =====
-- The listener replays the events of a call tree into the numbered preorder of the tree.
use mathlib.Core.List.{append-nil, append_assoc}
use edgeware_node.Prelude.{
  ℕ, suc, ◌+◌, ◌^◌, ◌≤◌, ◌<◌, ◌≡◌, refl, sym, ap, ◌∙◌, List, [], ◌∷◌, ◌++◌, Option, none, Bool,
  arith,
}
use edgeware_node.BTreeMap
use edgeware_node.BTreeMap.{
  BTreeMap, From, From-le, Below, Below-le, append-From, append-Below, insert_between,
}
use edgeware_node.Tracing.Types.{H160, CallType, BlockscoutCall}
use edgeware_node.Tracing.Entries.{Context}
use edgeware_node.Tracing.CallList.{events}
use edgeware_node.Tracing.CallList.Tree.{
  Frame, CallTree, frame, destruct, Forest, leaf, grow, meter, leave, origin, type_after,
  tree_events, forest_events, size, forest_size, branches, first_gas, last_gas, frame_context,
  frame_entry, preorder, preorder_forest, last_type, forest_type,
}
use edgeware_node.Tracing.CallList.Steps.{
  running, grown, metered, events-append, enter_as_lem, meter_lem, leave_lem, destruct_lem,
  first_gas-append, last_gas-append, frame_entry_lem,
}

pub branches-le : (ts : Forest) → branches ts ≤ forest_size ts
branches-le leaf = omega arith
branches-le (grow (frame f us) ts) = omega (arith, branches-le ts)
branches-le (grow (destruct a b v) ts) = omega (arith, branches-le ts)

-- The indices of a tree are those from `n` on, one for each context.
mutual
  preorder-Below :
      (cost n : ℕ) (a : List ℕ) (p : H160) (t : CallTree)
      → Below (n + size t) (preorder cost n a p t)
  preorder-Below cost n a p (frame f ts) =
      (omega arith, Below-le _ (omega arith) (preorder_forest-Below cost (suc n) a 0 f.to ts))
  preorder-Below cost n a p (destruct x y v) = (omega arith, tt)

  preorder_forest-Below :
      (cost n : ℕ) (a : List ℕ) (k : ℕ) (p : H160) (ts : Forest)
      → Below (n + forest_size ts) (preorder_forest cost n a k p ts)
  preorder_forest-Below cost n a k p leaf = tt
  preorder_forest-Below cost n a k p (grow t ts) =
      append-Below _ _ _ (Below-le _ (omega arith) (preorder-Below cost n (a ++ k ∷ []) p t))
        (Below-le _ (omega arith) (preorder_forest-Below cost (n + size t) a (suc k) p ts))

mutual
  preorder-From :
      (cost n : ℕ) (a : List ℕ) (p : H160) (t : CallTree) → From n (preorder cost n a p t)
  preorder-From cost n a p (frame f ts) =
      (omega arith, preorder_forest-From cost (suc n) a 0 f.to ts)
  preorder-From cost n a p (destruct x y v) = (omega arith, tt)

  pub preorder_forest-From :
      (cost n : ℕ) (a : List ℕ) (k : ℕ) (p : H160) (ts : Forest)
      → From n (preorder_forest cost n a k p ts)
  preorder_forest-From cost n a k p leaf = tt
  preorder_forest-From cost n a k p (grow t ts) =
      append-From n (n + size t) _ _ (preorder-From cost n (a ++ k ∷ []) p t)
        (preorder-Below cost n (a ++ k ∷ []) p t) (omega arith)
        (preorder_forest-From cost (n + size t) a (suc k) p ts)

module _ (cost : ℕ) (ms : List (BTreeMap BlockscoutCall)) (first : Bool) where
  running-cong :
      {n n' : ℕ} {s s' : List Context} {m m' : BTreeMap BlockscoutCall} (t : Option CallType)
      → n ≡ n'
      → s ≡ s'
      → m ≡ m'
      → running cost n s m ms t first ≡ running cost n' s' m' ms t first
  running-cong t e f g = λ i. running cost (e i) (f i) (g i) ms t first

  -- The events of a context after it has been entered, given the replay of its inner calls.
  pub body_lem :
      (n n' : ℕ) (a : List ℕ) (from : H160) (f : Frame) (ts : Forest) (rest : List Context)
      (m pf : BTreeMap BlockscoutCall) (t t' : Option CallType)
      → Below n m
      → From (suc n) pf
      → let c =
          metered (first_gas none f.before) (last_gas 0 f.before) (frame_context n a from 0 [] f) in
        events (forest_events ts) (running cost (suc n) (c ∷ rest) m ms t first)
          ≡ running cost n' (grown (branches ts) c ∷ rest) (m ++ pf) ms t' first
        → events
            (meter f.before ++ (forest_events ts ++ (meter f.after ++ leave f)))
            (running cost (suc n) (frame_context n a from 0 [] f ∷ rest) m ms t first)
          ≡ running cost n' rest
              (m ++ (n, frame_entry cost n a from (branches ts) f) ∷ pf)
              ms
              t'
              first
  body_lem n n' a from f ts rest m pf t t' below above inner =
      let c0 = frame_context n a from 0 [] f in
      let c1 = metered (first_gas none f.before) (last_gas 0 f.before) c0 in
      let tail = meter f.after ++ leave f in
      events-append (meter f.before) (forest_events ts ++ tail) _
      ∙ ap (events (forest_events ts ++ tail))
          (meter_lem cost (suc n) rest m ms t first c0 none 0 f.before)
      ∙ events-append (forest_events ts) tail _
      ∙ ap (events tail) inner
      ∙ events-append (meter f.after) (leave f) _
      ∙ ap (events (leave f)) (
          meter_lem cost n' rest (m ++ pf) ms t' first (grown (branches ts) c1)
            (first_gas none f.before) (last_gas 0 f.before) f.after)
      ∙ leave_lem cost n' rest (m ++ pf) ms t' first f f.stepped _ refl
      ∙ running-cong t' refl refl (
          insert_between n _ m pf below above
          ∙ (rw (first_gas-append none f.before f.after, last_gas-append 0 f.before f.after)
              (ap (λ e. m ++ (n, e) ∷ pf) (frame_entry_lem cost n a from (branches ts) f))))

  mutual
    unfolding events

    pub tree_lem :
        (t : CallTree) (p : Context) (rest : List Context) (n : ℕ) (m : BTreeMap BlockscoutCall)
        (ty : Option CallType)
        → Below n m
        → n + size t < 2 ^ 32
        → p.subtraces + 1 < 2 ^ 32
        → events (tree_events t) (running cost n (p ∷ rest) m ms ty first)
          ≡ running cost
              (n + size t)
              (grown (suc p.subtraces) p ∷ rest)
              (m ++ preorder cost n (p.trace_address ++ p.subtraces ∷ []) p.to t)
              ms
              (last_type ty t)
              first
    tree_lem (frame f ts) p rest n m ty below fits room =
        let c =
          frame_context n (p.trace_address ++ p.subtraces ∷ []) (origin p.to f f.context_type) 0 []
            f in
        let c1 = metered (first_gas none f.before) (last_gas 0 f.before) c in
        ap (events (meter f.before ++ (forest_events ts ++ (meter f.after ++ leave f))))
          (enter_as_lem cost n rest m ms first p f ty f.context_type refl (omega arith) room)
        ∙ body_lem n (n + suc (forest_size ts)) c.trace_address c.from f ts
            (grown (suc p.subtraces) p ∷ rest) m
            (preorder_forest cost (suc n) c.trace_address 0 f.to ts) (type_after ty f.context_type)
            _ below (preorder_forest-From cost (suc n) c.trace_address 0 f.to ts)
            (forest_lem ts c1 (grown (suc p.subtraces) p ∷ rest) (suc n) (n + suc (forest_size ts))
              (branches ts) m (type_after ty f.context_type) (Below-le m (omega arith) below)
              (omega arith) (omega (arith, branches-le ts)) (omega arith) (omega arith))
    tree_lem (destruct a b v) p rest n m ty below fits room =
        destruct_lem cost n rest m ms ty first p a b v fits room
        ∙ running-cong ty (omega arith) refl
            (ap (BTreeMap.insert n _) (sym (append-nil m)) ∙ insert_between n _ m [] below tt)

    pub forest_lem :
        (ts : Forest) (p : Context) (rest : List Context) (n n' k' : ℕ)
        (m : BTreeMap BlockscoutCall) (ty : Option CallType)
        → Below n m
        → n' < 2 ^ 32
        → k' < 2 ^ 32
        → n' ≡ n + forest_size ts
        → k' ≡ p.subtraces + branches ts
        → events (forest_events ts) (running cost n (p ∷ rest) m ms ty first)
          ≡ running cost n'
              (grown k' p ∷ rest)
              (m ++ preorder_forest cost n p.trace_address p.subtraces p.to ts)
              ms
              (forest_type ty ts)
              first
    forest_lem leaf p rest n n' k' m ty below fits room en ek =
        running-cong ty (omega arith) (ap (λ k. grown k p ∷ rest) (omega arith))
          (sym (append-nil m))
    forest_lem (grow t ts) p rest n n' k' m ty below fits room en ek =
        let q = grown (suc p.subtraces) p in
        let first_branch = preorder cost n (p.trace_address ++ p.subtraces ∷ []) p.to t in
        events-append (tree_events t) (forest_events ts) _
        ∙ ap (events (forest_events ts))
            (tree_lem t p rest n m ty below (omega arith) (omega arith))
        ∙ forest_lem ts q rest (n + size t) n' k' (m ++ first_branch) (last_type ty t)
            (append-Below _ m first_branch (Below-le m (omega arith) below)
              (preorder-Below cost n (p.trace_address ++ p.subtraces ∷ []) p.to t))
            fits room (omega arith) (omega arith)
        ∙ running-cong (forest_type (last_type ty t) ts) refl refl (append_assoc m first_branch _)
