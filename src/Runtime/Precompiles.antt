-- ===== src/Runtime/Precompiles.antt =====
-- node/runtime/src/precompiles.rs: the precompiled contracts by their addresses. What each of them
-- computes is a library's business.
use edgeware_node.Prelude.{
  ℕ, ◌≡◌, List, [], ◌∷◌, Option, none, some, Bool, true, false, arith, ◌&&◌, ◌||◌, ◌==◌, leb,
  if◌then◌else◌,
}
use edgeware_node.Tracing.Types.{H160}

pub data Precompile : Type 0 where
  ec_recover sha256 ripemd160 identity modexp : Precompile
  bn128_add bn128_mul bn128_pairing blake2f : Precompile
  sha3_fips256 ec_recover_public_key ed25519_verify : Precompile
  curve25519_add curve25519_scalar_mul : Precompile

-- `H160::from_low_u64_be`.
abbrev pub hash : ℕ → H160
hash a = a

abbrev pub used_addresses : List H160
used_addresses =
    hash 1
    ∷ hash 2
    ∷ hash 3
    ∷ hash 4
    ∷ hash 5
    ∷ hash 1024
    ∷ hash 1025
    ∷ hash 1026
    ∷ hash 1027
    ∷ hash 1028
    ∷ []

contains : List H160 → H160 → Bool
contains [] a = false
contains (x ∷ xs) a = a == x || contains xs a

-- The `match` of `execute`: which contract runs.
unfoldable pub execute : H160 → Option Precompile
execute a =
    if a == hash 1
    then some Precompile.ec_recover
    else if a == hash 2
    then some Precompile.sha256
    else if a == hash 3
    then some Precompile.ripemd160
    else if a == hash 4
    then some Precompile.identity
    else if a == hash 5
    then some Precompile.modexp
    else if a == hash 6
    then some Precompile.bn128_add
    else if a == hash 7
    then some Precompile.bn128_mul
    else if a == hash 8
    then some Precompile.bn128_pairing
    else if a == hash 9
    then some Precompile.blake2f
    else if a == hash 1024
    then some Precompile.sha3_fips256
    else if a == hash 1025
    then some Precompile.ec_recover_public_key
    else if a == hash 1026
    then some Precompile.ed25519_verify
    else if a == hash 1027
    then some Precompile.curve25519_add
    else if a == hash 1028
    then some Precompile.curve25519_scalar_mul
    else none

unfoldable pub is_precompile : H160 → Bool
unfolding contains
is_precompile a = contains used_addresses a

abbrev pub is_some : {A : Type 0} → Option A → Bool
is_some none = false
is_some (some a) = true

-- A contract runs at exactly the addresses that `is_precompile` names and at 6 to 9 (the three
-- Bn128 contracts and Blake2F), which it does not name.
pub execute-is_precompile :
    (a : H160)
    → (is_some (execute a) ≡ is_precompile a || leb 6 a && leb a 9)
      × (is_precompile a && (leb 6 a && leb a 9) ≡ false)
unfolding execute is_precompile
execute-is_precompile a = ground arith
