-- ===== src/Treasury/Minting.antt =====
-- How much is minted, and when finalising a block fails.
use native.Mathlib.Nat.{
  mod-lt, mod-eq_of_lt, mod_self, div-eq_of_lt, div_self, div-add-mod, mul-add-div,
  mul-add-mod_self_left,
}
use mathlib.Core.Path.{ap₂}
use edgeware_node.Prelude.{
  ℕ, zero, suc, ◌+◌, ◌*◌, ◌/◌, ◌%◌, ◌<◌, ◌≡◌, refl, sym, ap, ◌∙◌, ◌≢◌, ◌↔◌, inl, inr, Bool, true,
  false, ◌==◌, arith, if◌then◌else◌, Bool-cases, ltb,
}
use edgeware_node.Prelude.Results.{ok, err}
use edgeware_node.Treasury.{
  Balances, State, division_by_zero, bad_origin, Origin, root, on_finalize, set_current_payout,
  set_minting_interval, finalize_blocks, mint,
}

small_step : (r d : ℕ) → r < suc d → (r + 1) / suc d ≡ (if (r + 1) % suc d == 0 then 1 else 0)
small_step r d h = elim (Bool-cases (ltb (r + 1) (suc d))) [
  | inl below ↦
      let lt : r + 1 < suc d = ground (arith, below) in
      rw (div-eq_of_lt lt, mod-eq_of_lt lt) (ground arith)
  | inr at ↦
      let eq : r + 1 ≡ suc d = ground (arith, at) in
      rw (eq, mod_self (suc d), div_self {n = suc d} (omega arith)) refl
]

-- The quotient rises by one at each multiple.
div_step : (n d : ℕ) → (n + 1) / suc d ≡ n / suc d + (if (n + 1) % suc d == 0 then 1 else 0)
div_step n d =
    let q = n / suc d in
    let r = n % suc d in
    let e : n + 1 ≡ suc d * q + (r + 1) = omega (arith, div-add-mod n (suc d)) in
    rw e (
      rw (mul-add-div {m = suc d} (omega arith) q (r + 1), mul-add-mod_self_left (suc d) q (r + 1))
        (ap (λ x. q + x) (small_step r d (mod-lt n (omega arith)))))

times_if : (b : Bool) (p : ℕ) → (if b then p else 0) ≡ (if b then 1 else 0) * p
times_if true p = omega arith
times_if false p = omega arith

-- One payment `x` more, in products.
pay_step :
    (u t s p a b c x : ℕ)
    → a ≡ b + x
    → u + a * p ≡ t + c * p
    → t ≡ s + x * p
    → u + b * p ≡ s + c * p
pay_step u t s p a b c x step total paid = omega (arith, ap (λ (k : ℕ). k * p) step)

module _ {B : Type 0} (pallets : Balances B) (treasury : ℕ)
    (deposits : (amount : ℕ) (b : B)
      → pallets.free_balance treasury (pallets.deposit_creating treasury amount b)
        ≡ pallets.free_balance treasury b + amount) where
  abbrev balance : State B → ℕ
  balance s = pallets.free_balance treasury s.balances

  -- What a block leaves: the reward if its number is a multiple of the interval.
  record Finalized (s t : State B) : Type 0 where
    paid :
        balance t
        ≡ balance s + (if s.block_number % s.minting_interval == 0 then s.current_payout else 0)
    same_interval : t.minting_interval ≡ s.minting_interval
    same_payout : t.current_payout ≡ s.current_payout
    same_number : t.block_number ≡ s.block_number

  finalize_lem :
      (s : State B) (d : ℕ)
      → s.minting_interval ≡ suc d
      → (t : State B) × (on_finalize pallets treasury s ≡ ok t) × Finalized s t
  unfolding on_finalize
  finalize_lem s d e = elim (Bool-cases (s.block_number % suc d == 0)) [
    | inr other ↦ (s, rw (e, on_finalize) (rw other), ground arith)
    | inl multiple ↦ elim (Bool-cases (s.current_payout == 0)) [
      | inl nothing ↦ (s, rw (e, on_finalize) (rw multiple (rw nothing)), ground arith)
      | inr some ↦ (
        mint pallets treasury s,
        rw (e, on_finalize) (rw multiple (rw some)),
        record {
          paid = ground (arith, deposits s.current_payout s.balances);
          same_interval = refl;
          same_payout = refl;
          same_number = refl;
        },
      )
    ]
  ]

  -- Over the next `n` blocks, with the interval above zero and no call in between, no block fails,
  -- and the treasury is paid once for each multiple of the interval among the block numbers, if a
  -- deposit raises the balance by its amount.
  pub finalize_blocks-paid :
      (n : ℕ) (s : State B) (d : ℕ)
      → s.minting_interval ≡ suc d
      → (t : State B) × (finalize_blocks pallets treasury n s ≡ ok t)
        × (balance t + s.block_number / suc d * s.current_payout
            ≡ balance s + (s.block_number + n) / suc d * s.current_payout)
        × (t.block_number ≡ s.block_number + n)
  unfolding finalize_blocks
  finalize_blocks-paid zero s d e =
      let same : s.block_number + 0 ≡ s.block_number = omega arith in
      (s, refl, ap (λ k. balance s + k / suc d * s.current_payout) (sym same), sym same)
  finalize_blocks-paid (suc n) s d e =
      let next = record s { block_number = s.block_number + 1 } in
      let (t, done, f) = finalize_lem next d e in
      let (u, rest, total, number) = finalize_blocks-paid n t d (f.same_interval ∙ e) in
      let p = s.current_payout in
      let N = s.block_number in
      let x : ℕ = if (N + 1) % suc d == 0 then 1 else 0 in
      let paid : balance t ≡ balance s + x * p =
        f.paid
        ∙ ap (λ i. balance s + (if (N + 1) % i == 0 then p else 0)) e
        ∙ ap (λ y. balance s + y) (times_if ((N + 1) % suc d == 0) p) in
      let total' : balance u + (N + 1) / suc d * p ≡ balance t + (N + suc n) / suc d * p =
        ap₂ (λ k q. balance u + k / suc d * q) (sym f.same_number) (sym f.same_payout)
        ∙ total
        ∙ ap₂ (λ k q. balance t + k / suc d * q) (omega (arith, f.same_number)) f.same_payout in
      (
        u,
        rw (done, finalize_blocks) rest,
        pay_step (balance u) (balance t) (balance s) p ((N + 1) / suc d) (N / suc d)
            ((N + suc n) / suc d) x (div_step N d) total' paid,
        omega (arith, number, f.same_number),
      )

-- Finalising a block fails exactly when the interval is zero.
pub on_finalize-fails_iff :
    {B : Type 0} (pallets : Balances B) (treasury : ℕ) (s : State B)
    → (on_finalize pallets treasury s ≡ err division_by_zero) ↔ (s.minting_interval ≡ 0)
unfolding on_finalize
on_finalize-fails_iff pallets treasury s =
    (λ fails. ground arith, λ zero_interval. rw (zero_interval, on_finalize))

-- The root origin may set the interval to zero, also when it had another value, and then the next
-- block cannot be finalised.
pub set_minting_interval-halts :
    {B : Type 0} (pallets : Balances B) (treasury : ℕ) (s : State B)
    → (t : State B) × (set_minting_interval pallets treasury root 0 s ≡ ok t)
      × (finalize_blocks pallets treasury 1 t ≡ err division_by_zero)
unfolding set_minting_interval finalize_blocks on_finalize
set_minting_interval-halts pallets treasury s = (record s { minting_interval = 0 }, refl, refl)

-- A call by any other origin is refused.
pub calls_refused :
    {B : Type 0} (pallets : Balances B) (treasury : ℕ) (origin : Origin) (n : ℕ) (s : State B)
    → origin ≢ root
    → (set_current_payout pallets treasury origin n s ≡ err bad_origin)
      × (set_minting_interval pallets treasury origin n s ≡ err bad_origin)
unfolding set_current_payout set_minting_interval
calls_refused pallets treasury origin n s other = ground arith
