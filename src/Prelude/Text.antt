-- ===== src/Prelude/Text.antt =====
-- Byte strings: a `Vec<u8>` is a list of numbers, and `b"..."` is the codes of a text.
use Prim.Native.Nat.{ℕ}
use Prim.Native.Char.{code}
use Prim.Native.String.{String}
use mathlib.Core.List.{List, [], ◌∷◌}
use mathlib.Core.Bool.{Bool, true, false, ◌&&◌}
use mathlib.Core.Path.{◌≡◌, refl}
use native.Mathlib.Omega.{arith}
use edgeware_node.Prelude.Tests.{◌==◌}

abbrev pub Bytes : Type 0
Bytes = List ℕ

-- `"...".as_bytes().to_vec()`, for a text of ASCII characters.
abbrev pub bytes : String → Bytes
bytes String.[] = []
bytes (String.◌∷◌ c s) = code c ∷ bytes s

unfoldable pub bytes_eq : Bytes → Bytes → Bool
bytes_eq [] [] = true
bytes_eq (x ∷ xs) (y ∷ ys) = x == y && bytes_eq xs ys
bytes_eq _ _ = false

pub bytes_eq-equal : (k j : Bytes) → bytes_eq k j ≡ true → k ≡ j
unfolding bytes_eq
bytes_eq-equal [] [] h = refl
bytes_eq-equal (x ∷ k) (y ∷ j) h = ground (arith, bytes_eq-equal k j)
bytes_eq-equal [] (y ∷ j) h = absurd (cc h)
bytes_eq-equal (x ∷ k) [] h = absurd (cc h)
