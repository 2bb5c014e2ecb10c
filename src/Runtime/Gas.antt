-- ===== src/Runtime/Gas.antt =====
-- node/runtime/src/lib.rs, `EdgewareGasWeightMapping` and `BlockGasLimit`. `WEIGHT_PER_SECOND`, a
-- library's constant, is the parameter `weight_per_second`.
use Prim.Native.Nat.{min}
use native.Mathlib.Nat.{
  div-mul-le_self, mul-le-mul_right, div-le_of_le-mul, mul-div_cancel, min-eq_left, min-eq_right,
  le_trans, min-le_left,
}
use edgeware_node.Prelude.{ℕ, Bool, true, false, ◌≡◌, ◌-◌, ◌*◌, ◌/◌, ◌^◌, ◌≤◌, ◌<◌, arith}

-- The Boolean is the feature `beresheet-runtime`.
abbrev pub gas_per_second : Bool → ℕ
gas_per_second false = 8_000_000
gas_per_second true = 150_000_000

abbrev pub u64_max : ℕ
u64_max = 2 ^ 64 - 1

unfoldable pub weight_per_gas : Bool → ℕ → ℕ
weight_per_gas beresheet weight_per_second = weight_per_second / gas_per_second beresheet

-- `saturating_mul`.
unfoldable pub gas_to_weight : Bool → ℕ → ℕ → ℕ
gas_to_weight beresheet weight_per_second gas =
    min (gas * weight_per_gas beresheet weight_per_second) u64_max

-- `wrapping_div` of unsigned numbers is a division; `try_from` on a `u64` does not fail.
unfoldable pub weight_to_gas : Bool → ℕ → ℕ → ℕ
weight_to_gas beresheet weight_per_second weight =
    weight / weight_per_gas beresheet weight_per_second

-- `NORMAL_DISPATCH_RATIO * MAXIMUM_BLOCK_WEIGHT`: what normal transactions may weigh. The ratio's
-- product, a library's, is the parameter `normal`.
unfoldable pub normal_weight : (ℕ → ℕ) → ℕ → ℕ
normal_weight normal weight_per_second = normal (2 * weight_per_second)

unfoldable pub block_gas_limit : Bool → (ℕ → ℕ) → ℕ → ℕ
block_gas_limit beresheet normal weight_per_second =
    normal_weight normal weight_per_second / weight_per_gas beresheet weight_per_second

saturating-div : (b g m : ℕ) → 0 < b → (min (g * b) m / b ≤ g) × (g * b ≤ m → min (g * b) m / b ≡ g)
saturating-div b g m h = (
  div-le_of_le-mul b (omega (arith, min-le_left (g * b) m)),
  λ fits. rw (min-eq_left fits, mul-div_cancel g h),
)

saturating-mul : (b w m : ℕ) → min (w / b * b) m ≤ w
saturating-mul b w m = le_trans (min-le_left (w / b * b) m) (div-mul-le_self w b)

saturating-over : (a m : ℕ) → m < a → min a m ≡ m
saturating-over a m h = min-eq_right (omega arith)

saturating-le : (b g g' m : ℕ) → g ≤ g' → min (g * b) m ≤ min (g' * b) m
saturating-le b g g' m h = omega (arith, mul-le-mul_right b h)

-- If a gas has a weight: weighing gas is exact while it fits 64 bits, else the largest weight, and
-- more gas never weighs less; weighing gas and converting back never gains gas, and loses none if
-- it fits; converting a weight to gas and back never gains weight; and the block's gas limit weighs
-- no more than its normal transactions may.
pub gas_to_weight-bounds :
    (beresheet : Bool) (weight_per_second gas more weight : ℕ) (normal : ℕ → ℕ)
    → 0 < weight_per_gas beresheet weight_per_second
    → gas ≤ more
    → (gas * weight_per_gas beresheet weight_per_second ≤ u64_max
        → (gas_to_weight beresheet weight_per_second gas
            ≡ gas * weight_per_gas beresheet weight_per_second)
          × (weight_to_gas beresheet weight_per_second
                (gas_to_weight beresheet weight_per_second gas)
              ≡ gas))
      × (u64_max < gas * weight_per_gas beresheet weight_per_second
          → gas_to_weight beresheet weight_per_second gas ≡ u64_max)
      × (gas_to_weight beresheet weight_per_second gas
          ≤ gas_to_weight beresheet weight_per_second more)
      × (weight_to_gas beresheet weight_per_second (gas_to_weight beresheet weight_per_second gas)
          ≤ gas)
      × (gas_to_weight beresheet weight_per_second
            (weight_to_gas beresheet weight_per_second weight)
          ≤ weight)
      × (gas_to_weight beresheet weight_per_second
            (block_gas_limit beresheet normal weight_per_second)
          ≤ normal_weight normal weight_per_second)
unfolding gas_to_weight weight_to_gas block_gas_limit
gas_to_weight-bounds beresheet weight_per_second gas more weight normal h larger =
    let per_gas = weight_per_gas beresheet weight_per_second in
    let (no_more, all) = saturating-div per_gas gas u64_max h in
    (
      λ fits. (min-eq_left fits, all fits),
      λ over. saturating-over (gas * per_gas) u64_max over,
      saturating-le per_gas gas more u64_max larger,
      no_more,
      saturating-mul per_gas weight u64_max,
      saturating-mul per_gas (normal_weight normal weight_per_second) u64_max,
    )
