-- ===== src/Tests/Runtime.antt =====
-- The runtime's own pieces at concrete inputs: a vote by proxy, the Blake2F address, fees of 100 with
-- tips of 7, and gas at 2 weights a gas.
use native.Mathlib.Nat.{div-le_of_le-mul}
use edgeware_node.Prelude.{
  ℕ, ◌+◌, ◌-◌, ◌*◌, ◌/◌, ◌≤◌, ◌<◌, ◌≡◌, refl, List, [], ◌∷◌, Option, none, some, true, false, inl,
  inr, ◌^◌, ◌≢◌, Bool-cases, if◌then◌else◌, ◌&&◌, ◌||◌, leb, arith,
}
use edgeware_node.Prelude.Text.{bytes_eq, bytes_eq-equal}
use edgeware_node.Runtime.Migration.{
  Key, Account, Unhashed, Lawful, storage_key, upgrades, with_credits, upgrades-credits,
}
use edgeware_node.Runtime.Proxy
use edgeware_node.Runtime.Proxy.{ProxyType, filter, is_superset-filter}
use edgeware_node.Runtime.Precompiles.{execute, is_precompile, is_some, execute-is_precompile}
use edgeware_node.Runtime.Fees.{Ration, Credit, on_unbalanceds, total, on_unbalanceds-total}
use edgeware_node.Runtime.Gas.{
  weight_per_gas, gas_to_weight, weight_to_gas, block_gas_limit, normal_weight, u64_max,
  gas_to_weight-bounds,
}

is_superset-filter_example : filter ProxyType.non_transfer (Proxy.Call.democracy 3) ≡ true
unfolding Proxy.filter Proxy.is_superset
is_superset-filter_example =
    is_superset-filter ProxyType.non_transfer ProxyType.governance (Proxy.Call.democracy 3) refl
      refl

execute-is_precompile_example :
    (is_some (execute 9) ≡ is_precompile 9 || leb 6 9 && leb 9 9)
    × (is_precompile 9 && (leb 6 9 && leb 9 9) ≡ false)
execute-is_precompile_example = execute-is_precompile 9

-- The second part of a split gets its share of the whole, rounded down, the first part the rest.
abbrev rounded : Ration
rounded amount first second =
    let share = amount * second / (first + second) in (amount - share, share)

less : (a f s : ℕ) → a * s ≤ (f + s) * a
less a f s = omega arith

rounded-whole :
    (amount first second : ℕ)
    → (rounded amount first second).0 + (rounded amount first second).1 ≡ amount
rounded-whole amount first second =
    omega (arith, div-le_of_le-mul (first + second) (less amount first second))

on_unbalanceds-total_example :
    (cs : List Credit) × (on_unbalanceds rounded (some 42) (100 ∷ 7 ∷ []) ≡ some cs)
    × (total cs ≡ 100 + 7)
on_unbalanceds-total_example = on_unbalanceds-total rounded 42 100 7 rounded-whole

-- The runtime `beresheet`, at 2 weights a gas.
gas_to_weight-bounds_example :
    (21000 * 2 ≤ u64_max
      → (gas_to_weight true 300_000_000 21000 ≡ 21000 * 2)
        × (weight_to_gas true 300_000_000 (gas_to_weight true 300_000_000 21000) ≡ 21000))
    × (u64_max < 21000 * 2 → gas_to_weight true 300_000_000 21000 ≡ u64_max)
    × (gas_to_weight true 300_000_000 21000 ≤ gas_to_weight true 300_000_000 30000)
    × (weight_to_gas true 300_000_000 (gas_to_weight true 300_000_000 21000) ≤ 21000)
    × (gas_to_weight true 300_000_000 (weight_to_gas true 300_000_000 33333) ≤ 33333)
    × (gas_to_weight true 300_000_000 (block_gas_limit true (λ w. w * 3 / 4) 300_000_000)
        ≤ normal_weight (λ w. w * 3 / 4) 300_000_000)
unfolding weight_per_gas
gas_to_weight-bounds_example =
    gas_to_weight-bounds true 300_000_000 21000 30000 33333 (λ w. w * 3 / 4) (omega arith)
      (omega arith)

-- A storage as a function of the keys.
abbrev keyed : Unhashed (Key → Option Account)
keyed = record {
  get = λ k s. s k;
  take = λ k s. (s k, λ j. if bytes_eq k j then none else s j);
  put = λ k a s. λ j. if bytes_eq k j then some a else s j;
}

bytes_eq-same : (k : Key) → bytes_eq k k ≡ true
unfolding bytes_eq
bytes_eq-same [] = refl
bytes_eq-same (x ∷ k) = ground (arith, bytes_eq-same k)

keyed-other : (k j : Key) (a b : Option Account) → k ≢ j → (if bytes_eq k j then a else b) ≡ b
keyed-other k j a b other = elim (Bool-cases (bytes_eq k j)) [
  | inl same ↦ absurd (other (bytes_eq-equal k j same))
  | inr apart ↦ rw apart refl
]

keyed-Lawful : Lawful keyed
keyed-Lawful = record {
  get-put = λ k a s. rw (bytes_eq-same k) refl;
  get-put_other = λ k j a s other. keyed-other k j (some a) (s j) other;
  take-get = λ k s. refl;
  get-take_other = λ k j s other. keyed-other k j none (s j) other;
}

abbrev blake : Key → Key
blake k = 1 ∷ 2 ∷ []

-- No account has anything, and the runtime is upgraded twice.
upgrades-credits_example :
    (t : Key → Option Account) × (upgrades keyed blake 2 (λ k. none) ≡ some t)
    × (t (storage_key blake) ≡ some (with_credits 2 (2 ^ 64, 0, 0, 0, 0)))
    × ((j : Key) → storage_key blake ≢ j → t j ≡ none)
upgrades-credits_example = upgrades-credits keyed blake keyed-Lawful 1 (λ k. none)
