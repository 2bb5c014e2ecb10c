-- ===== src/DebugRpc/Params/Reading.antt =====
-- What the parameters of a trace ask for, from their tracer's text and its hash.
use edgeware_node.Prelude.{
  ℕ, ◌≡◌, refl, sym, ap, ◌∙◌, ◌⊎◌, inl, inr, Option, none, some, Bool, false, arith, ◌==◌,
  Bool-cases, ==_iff,
}
use edgeware_node.Prelude.Text.{Bytes, bytes, bytes_eq, bytes_eq-equal}
use edgeware_node.Prelude.Results.{ok, err, Result}
use edgeware_node.DebugRpc.Types.{TraceParams, TracerInput, TraceType}
use edgeware_node.DebugRpc.Params.{handle_params, params_with, tracer_of, traced_by}

-- The two versions of Blockscout's tracer, by their hashes.
abbrev pub IsBlockscout : ℕ → Type 0
IsBlockscout h = (h ≡ 0x94d9f08796f91eb13a2e82a6066882f7) ⊎ (h ≡ 0x89db13694675692951673a1e6e18ff02)

abbrev pub tracer_in : Option TraceParams → Option Bytes
tracer_in none = none
tracer_in (some params) = params.tracer

-- "callTracer", by the codes of its letters.
abbrev pub IsCallTracer : (Bytes → ℕ) → Bytes → Type 0
IsCallTracer twox_128 t = (¬ IsBlockscout (twox_128 t)) × (t ≡ bytes "callTracer")

abbrev pub ReadAs : (Bytes → ℕ) → Option Bytes → TracerInput × TraceType → Type 0
ReadAs twox_128 none x =
    (s : Bool) × (m : Bool) × (k : Bool) × (x ≡ (TracerInput.none, TraceType.raw s m k))
ReadAs twox_128 (some t) x =
    (IsBlockscout (twox_128 t) × (x ≡ (TracerInput.blockscout, TraceType.call_list)))
    ⊎ (IsCallTracer twox_128 t × (x ≡ (TracerInput.call_tracer, TraceType.call_list)))

tracer_of-cases :
    (h : ℕ) (t : Bytes)
    → (IsBlockscout h × (tracer_of h t ≡ some TracerInput.blockscout))
      ⊎ (((¬ IsBlockscout h)
            × (t ≡ bytes "callTracer")
            × (tracer_of h t ≡ some TracerInput.call_tracer))
          ⊎ (tracer_of h t ≡ none))
unfolding tracer_of
tracer_of-cases h t = elim (Bool-cases (h == 0x94d9f08796f91eb13a2e82a6066882f7)) [
  | inl first ↦ inl (inl ((==_iff h _).0 first), rw first refl)
  | inr not_first ↦ elim (Bool-cases (h == 0x89db13694675692951673a1e6e18ff02)) [
    | inl second ↦ inl (inr ((==_iff h _).0 second), rw (not_first, second) refl)
    | inr not_second ↦ elim (Bool-cases (bytes_eq t (bytes "callTracer"))) [
      | inl named ↦ inr (
          inl (
            neither not_first not_second,
            bytes_eq-equal t _ named,
            rw (not_first, not_second, named) refl,
          ))
      | inr other ↦ inr (inr (rw (not_first, not_second, other) refl))
    ]
  ]
]
  where
    neither :
        h == 0x94d9f08796f91eb13a2e82a6066882f7 ≡ false
        → h == 0x89db13694675692951673a1e6e18ff02 ≡ false
        → ¬ IsBlockscout h
    neither a b (inl e) = ground (arith, a, e)
    neither a b (inr e) = ground (arith, b, e)

abbrev of_ok : {A E : Type 0} → A → Result A E → A
of_ok d (ok a) = a
of_ok d (err e) = d

ok-same : {A E : Type 0} (a b : A) → Path (Result A E) (ok a) (ok b) → b ≡ a
ok-same a b h = sym (ap (of_ok a) h)

params_with-ReadAs :
    (twox_128 : Bytes → ℕ) (p : TraceParams) (t : Option Bytes) (x : TracerInput × TraceType)
    → params_with twox_128 p t ≡ ok x
    → ReadAs twox_128 t x
unfolding params_with traced_by
params_with-ReadAs twox_128 p none x h = (_, _, _, ok-same _ x h)
params_with-ReadAs twox_128 p (some t) x h = elim (tracer_of-cases (twox_128 t) t) [
  | inl (scout, e) ↦ inl (scout, ok-same _ x (sym (ap (traced_by (twox_128 t)) e) ∙ h))
  | inr (inl (not_scout, named, e)) ↦
      inr ((not_scout, named), ok-same _ x (sym (ap (traced_by (twox_128 t)) e) ∙ h))
  | inr (inr e) ↦ absurd (cc (sym (ap (traced_by (twox_128 t)) e) ∙ h))
]

-- Parameters that are read with success are read as what they ask for.
pub handle_params-ReadAs :
    (twox_128 : Bytes → ℕ) (params : Option TraceParams) (x : TracerInput × TraceType)
    → handle_params twox_128 params ≡ ok x
    → ReadAs twox_128 (tracer_in params) x
unfolding handle_params
handle_params-ReadAs twox_128 none x h = (_, _, _, ok-same _ x h)
handle_params-ReadAs twox_128 (some p) x h = params_with-ReadAs twox_128 p p.tracer x h
