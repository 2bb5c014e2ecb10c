-- ===== src/Runtime/Proxy.antt =====
-- node/runtime/src/lib.rs, `ProxyType`: which calls a proxy may make.
use edgeware_node.Prelude.{ℕ, ◌≡◌, refl, Bool, true, false, not}

pub data ProxyType : Type 0 where
  any non_transfer governance staking : ProxyType

-- The runtime's calls, by the pallets and the calls that `filter` tells apart.
pub data VestingCall : Type 0 where
  vested_transfer : VestingCall
  other : ℕ → VestingCall

pub data IndicesCall : Type 0 where
  transfer : IndicesCall
  other : ℕ → IndicesCall

pub data Call : Type 0 where
  balances democracy council phragmen_election treasury staking : ℕ → Call
  vesting : VestingCall → Call
  indices : IndicesCall → Call
  other : ℕ → Call

is_transfer : Call → Bool
is_transfer (Call.balances c) = true
is_transfer (Call.vesting VestingCall.vested_transfer) = true
is_transfer (Call.indices IndicesCall.transfer) = true
is_transfer _ = false

is_governance : Call → Bool
is_governance (Call.democracy c) = true
is_governance (Call.council c) = true
is_governance (Call.phragmen_election c) = true
is_governance (Call.treasury c) = true
is_governance _ = false

is_staking : Call → Bool
is_staking (Call.staking c) = true
is_staking _ = false

unfoldable pub filter : ProxyType → Call → Bool
unfolding is_transfer is_governance is_staking
filter ProxyType.any c = true
filter ProxyType.non_transfer c = not (is_transfer c)
filter ProxyType.governance c = is_governance c
filter ProxyType.staking c = is_staking c

-- The arms, in the order of the source: equal types, `Any` first, `Any` second, `NonTransfer`.
unfoldable pub is_superset : ProxyType → ProxyType → Bool
is_superset ProxyType.any o = true
is_superset ProxyType.non_transfer ProxyType.non_transfer = true
is_superset ProxyType.governance ProxyType.governance = true
is_superset ProxyType.staking ProxyType.staking = true
is_superset ProxyType.governance ProxyType.any = false
is_superset ProxyType.staking ProxyType.any = false
is_superset ProxyType.non_transfer ProxyType.any = false
is_superset ProxyType.non_transfer ProxyType.governance = true
is_superset ProxyType.non_transfer ProxyType.staking = true
is_superset ProxyType.governance ProxyType.non_transfer = false
is_superset ProxyType.governance ProxyType.staking = false
is_superset ProxyType.staking ProxyType.non_transfer = false
is_superset ProxyType.staking ProxyType.governance = false

non_transfer-governance :
    (c : Call) → filter ProxyType.governance c ≡ true → filter ProxyType.non_transfer c ≡ true
unfolding filter
non_transfer-governance (Call.democracy c) h = refl
non_transfer-governance (Call.council c) h = refl
non_transfer-governance (Call.phragmen_election c) h = refl
non_transfer-governance (Call.treasury c) h = refl
non_transfer-governance (Call.staking c) h = refl
non_transfer-governance (Call.balances c) h = absurd (cc h)
non_transfer-governance (Call.vesting c) h = absurd (cc h)
non_transfer-governance (Call.indices c) h = absurd (cc h)
non_transfer-governance (Call.other c) h = refl

non_transfer-staking :
    (c : Call) → filter ProxyType.staking c ≡ true → filter ProxyType.non_transfer c ≡ true
unfolding filter
non_transfer-staking (Call.staking c) h = refl
non_transfer-staking (Call.democracy c) h = refl
non_transfer-staking (Call.council c) h = refl
non_transfer-staking (Call.phragmen_election c) h = refl
non_transfer-staking (Call.treasury c) h = refl
non_transfer-staking (Call.balances c) h = absurd (cc h)
non_transfer-staking (Call.vesting c) h = absurd (cc h)
non_transfer-staking (Call.indices c) h = absurd (cc h)
non_transfer-staking (Call.other c) h = refl

-- A proxy type that counts as a superset of another allows every call that the other allows.
pub is_superset-filter :
    (p q : ProxyType) (c : Call) → is_superset p q ≡ true → filter q c ≡ true → filter p c ≡ true
unfolding filter is_superset
is_superset-filter ProxyType.any q c s h = refl
is_superset-filter ProxyType.non_transfer ProxyType.non_transfer c s h = h
is_superset-filter ProxyType.governance ProxyType.governance c s h = h
is_superset-filter ProxyType.staking ProxyType.staking c s h = h
is_superset-filter ProxyType.non_transfer ProxyType.governance c s h = non_transfer-governance c h
is_superset-filter ProxyType.non_transfer ProxyType.staking c s h = non_transfer-staking c h
is_superset-filter ProxyType.non_transfer ProxyType.any c s h = absurd (cc s)
is_superset-filter ProxyType.governance ProxyType.any c s h = absurd (cc s)
is_superset-filter ProxyType.governance ProxyType.non_transfer c s h = absurd (cc s)
is_superset-filter ProxyType.governance ProxyType.staking c s h = absurd (cc s)
is_superset-filter ProxyType.staking ProxyType.any c s h = absurd (cc s)
is_superset-filter ProxyType.staking ProxyType.non_transfer c s h = absurd (cc s)
is_superset-filter ProxyType.staking ProxyType.governance c s h = absurd (cc s)
