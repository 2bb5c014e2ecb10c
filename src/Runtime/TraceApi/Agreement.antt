-- ===== src/Runtime/TraceApi/Agreement.antt =====
-- What a replay emits: a transaction traced alone emits what it emits in its block.
use mathlib.Core.List.{append_assoc}
use edgeware_node.Prelude.{
  ◌≡◌, refl, sym, ap, ◌∙◌, inl, inr, List, [], ◌∷◌, ◌++◌, true, false, Bool-cases,
}
use edgeware_node.Prelude.All.{All}
use edgeware_node.Prelude.Results.{ok}
use edgeware_node.Tracing.Types.{H256}
use edgeware_node.Tracing.Events.{Event}
use edgeware_node.Ethereum.{TransactionV2}
use edgeware_node.Runtime.TraceApi.{
  Extrinsic, Machine, contains, find_and_trace, trace_transaction, apply_and_trace, trace_block,
}

module _ {State Other : Type 0} (m : Machine State Other) where
  -- The state after the extrinsics.
  abbrev pub after : State → List (Extrinsic Other) → State
  after s [] = s
  after s (e ∷ exts) = after (m.apply_extrinsic e s) exts

  -- Not an Ethereum transaction that is the same as this one.
  abbrev pub Differs : TransactionV2 → Extrinsic Other → Type 0
  Differs t (Extrinsic.ethereum u) = m.is_same u t ≡ false
  Differs t (Extrinsic.other call) = Unit

  find_and_trace-after :
      (s : State) (t : TransactionV2) (before later : List (Extrinsic Other))
      → m.is_same t t ≡ true
      → All (Differs t) before
      → find_and_trace m s t (before ++ Extrinsic.ethereum t ∷ later)
        ≡ (ok tt, m.emitted (Extrinsic.ethereum t) (after s before))
  unfolding find_and_trace
  find_and_trace-after s t [] later same h = rw same
  find_and_trace-after s t (Extrinsic.ethereum u ∷ before) later same h =
      rw (h.0) (
        find_and_trace-after (m.apply_extrinsic (Extrinsic.ethereum u) s) t before later same (h.1))
  find_and_trace-after s t (Extrinsic.other call ∷ before) later same h =
      find_and_trace-after (m.apply_extrinsic (Extrinsic.other call) s) t before later same (h.1)

  apply_and_trace-append :
      (s : State) (known : List H256) (before later : List (Extrinsic Other))
      → apply_and_trace m s known (before ++ later)
        ≡ apply_and_trace m s known before ++ apply_and_trace m (after s before) known later
  unfolding apply_and_trace
  apply_and_trace-append s known [] later = refl
  apply_and_trace-append s known (Extrinsic.other call ∷ before) later =
      apply_and_trace-append (m.apply_extrinsic (Extrinsic.other call) s) known before later
  apply_and_trace-append s known (Extrinsic.ethereum u ∷ before) later =
      let rest =
        apply_and_trace-append (m.apply_extrinsic (Extrinsic.ethereum u) s) known before later in
      elim (Bool-cases (contains known (m.transaction_hash u))) [
        | inl e ↦ rw e (
            ap (◌∷◌ Event.call_list_new) (
              ap (◌++◌ (m.emitted (Extrinsic.ethereum u) s)) rest
              ∙ sym (append_assoc (m.emitted (Extrinsic.ethereum u) s) _ _)))
        | inr e ↦ rw e rest
      ]

  apply_and_trace-known :
      (s : State) (known : List H256) (t : TransactionV2) (later : List (Extrinsic Other))
      → contains known (m.transaction_hash t) ≡ true
      → apply_and_trace m s known (Extrinsic.ethereum t ∷ later)
        ≡ Event.call_list_new
          ∷ (m.emitted (Extrinsic.ethereum t) s
              ++ apply_and_trace m (m.apply_extrinsic (Extrinsic.ethereum t) s) known later)
  unfolding apply_and_trace
  apply_and_trace-known s known t later e = rw e

  -- The first occurrence of a transaction in a block, if its hash is known, is traced alone with
  -- success, and emits just what it emits in its block: between the events of the extrinsics before
  -- it and those after it, behind the announcement of its call list.
  pub trace_transaction-trace_block :
      (s : State) (t : TransactionV2) (before later : List (Extrinsic Other)) (known : List H256)
      → m.is_same t t ≡ true
      → All (Differs t) before
      → contains known (m.transaction_hash t) ≡ true
      → let exts = before ++ Extrinsic.ethereum t ∷ later in
        let alone = trace_transaction m true s exts t in
        let next = m.apply_extrinsic (Extrinsic.ethereum t) (after s before) in
        (alone.0 ≡ ok tt)
        × ((trace_block m true s exts known).1
            ≡ (trace_block m true s before known).1
              ++ Event.call_list_new ∷ (alone.1 ++ (trace_block m true next later known).1))
  unfolding trace_transaction trace_block
  trace_transaction-trace_block s t before later known same h is_known =
      let alone = find_and_trace-after s t before later same h in
      (
        ap (λ r. r.0) alone,
        apply_and_trace-append s known before (Extrinsic.ethereum t ∷ later)
            ∙ rw (alone, apply_and_trace-known (after s before) known t later is_known) refl,
      )
