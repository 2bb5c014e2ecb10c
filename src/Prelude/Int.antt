-- ===== src/Prelude/Int.antt =====
-- Signed integers over the native numbers, under the library's names.
use Prim.Native.Nat.{ℕ, suc, ◌+◌, ◌-◌, ◌≤◌, ◌<◌}
use mathlib.Core.Path.{◌≡◌}
use mathlib.Core.Logic.{◌⊎◌}
use native.Mathlib.Omega.{arith}
use edgeware_node.Prelude.Tests.{leb, if◌then◌else◌}

-- `negsuc n` is -(n + 1).
pub data ℤ : Type 0 where
  pos : ℕ → ℤ
  negsuc : ℕ → ℤ

-- a - b, as an integer.
abbrev pub sub_ℕ : ℕ → ℕ → ℤ
sub_ℕ a b = if leb b a then pos (a - b) else negsuc (b - a - 1)

-- The sum of an integer and a number.
abbrev pub add_ℕ : ℤ → ℕ → ℤ
add_ℕ (pos a) n = pos (a + n)
add_ℕ (negsuc a) n = sub_ℕ n (suc a)

pub add_ℕ-sub_ℕ : (a b n : ℕ) → add_ℕ (sub_ℕ a b) n ≡ sub_ℕ (a + n) b
add_ℕ-sub_ℕ a b n = ground arith

pub sub_ℕ_pos : (a b : ℕ) → b < a → sub_ℕ a b ≡ pos (suc (a - b - 1))
sub_ℕ_pos a b h = ground arith

pub sub_ℕ_low : (a b : ℕ) → a ≤ b → (sub_ℕ a b ≡ pos 0) ⊎ (sub_ℕ a b ≡ negsuc (b - a - 1))
sub_ℕ_low a b h = ground arith
