-- ===== src/Tests/Treasury.antt =====
-- A treasury that is paid 40 every third block. The balances are one number, that of the treasury.
use edgeware_node.Prelude.{ℕ, ◌+◌, ◌*◌, ◌/◌, ◌≡◌, refl, []}
use edgeware_node.Prelude.Results.{ok, err}
use edgeware_node.Treasury.{
  Balances, State, division_by_zero, root, set_minting_interval, finalize_blocks,
}
use edgeware_node.Treasury.Minting.{finalize_blocks-paid, set_minting_interval-halts}

abbrev pallets : Balances ℕ
pallets = record {
  deposit_creating = λ account amount b. b + amount;
  free_balance = λ account b. b;
}

abbrev state : State ℕ
state = record {
  minting_interval = 3;
  current_payout = 40;
  block_number = 5;
  balances = 1000;
  events = [];
}

finalize_blocks-paid_example :
    (t : State ℕ) × (finalize_blocks pallets 6 8 state ≡ ok t)
    × (t.balances + 5 / 3 * 40 ≡ 1000 + 13 / 3 * 40)
    × (t.block_number ≡ 13)
finalize_blocks-paid_example = finalize_blocks-paid pallets 6 (λ amount b. refl) 8 state 2 refl

set_minting_interval-halts_example :
    (t : State ℕ) × (set_minting_interval pallets 6 root 0 state ≡ ok t)
    × (finalize_blocks pallets 6 1 t ≡ err division_by_zero)
set_minting_interval-halts_example = set_minting_interval-halts pallets 6 state
