-- ===== src/Treasury.antt =====
-- pallets/edge-treasury-reward/src/lib.rs: the pallet that mints a reward for the treasury once in
-- an interval of blocks. Balances are kept by other pallets, which are libraries: `Balances` says
-- what the pallet asks of them.
pub mod Minting
use edgeware_node.Prelude.{
  ℕ, zero, suc, ◌+◌, ◌%◌, List, [], ◌∷◌, ◌++◌, Bool, true, false, ◌==◌, if◌then◌else◌,
}
use edgeware_node.Prelude.Results.{Result, ok, err, ◌>>=◌}

-- `T::Currency::deposit_creating` and `pallet_balances::free_balance`, over the state `B` of the
-- balances.
pub record Balances (B : Type 0) : Type 0 where
  pub deposit_creating : ℕ → ℕ → B → B
  pub free_balance : ℕ → B → ℕ

pub data Event : Type 0 where
  -- the treasury's balance, the block's number, the treasury's account
  treasury_minting : ℕ → ℕ → ℕ → Event

pub record State (B : Type 0) : Type 0 where
  pub minting_interval : ℕ
  pub current_payout : ℕ
  pub block_number : ℕ
  pub balances : B
  pub events : List Event

pub data Failure : Type 0 where
  -- the remainder by zero panics
  division_by_zero : Failure
  -- `ensure_root` refuses the origin
  bad_origin : Failure

pub data Origin : Type 0 where
  root : Origin
  -- `Signed`, by an account
  signed : ℕ → Origin
  -- `None`
  unsigned : Origin

-- `a % b` on a block number.
rem : ℕ → ℕ → Result ℕ Failure
rem a zero = err division_by_zero
rem a (suc b) = ok (a % suc b)

abbrev ensure_root : Origin → Result (Unit {0}) Failure
ensure_root Origin.root = ok tt
ensure_root (Origin.signed a) = err bad_origin
ensure_root Origin.unsigned = err bad_origin

module _ {B : Type 0} (pallets : Balances B) (treasury : ℕ) where
  -- `GenesisConfig::build`.
  unfoldable pub build : ℕ → ℕ → State B → State B
  build interval payout s = record s { minting_interval = interval; current_payout = payout }

  mint : State B → State B
  mint s =
      let balances = pallets.deposit_creating treasury s.current_payout s.balances in
      record s {
        balances = balances;
        events =
            s.events
            ++ treasury_minting (pallets.free_balance treasury balances) s.block_number treasury
              ∷ [];
      }

  unfoldable pub on_finalize : State B → Result (State B) Failure
  unfolding rem mint
  on_finalize s = rem s.block_number s.minting_interval >>= λ r.
      if r == 0 then (if s.current_payout == 0 then ok s else ok (mint s)) else ok s

  unfoldable pub set_current_payout : Origin → ℕ → State B → Result (State B) Failure
  set_current_payout origin payout s =
      ensure_root origin >>= λ _. ok (record s { current_payout = payout })

  unfoldable pub set_minting_interval : Origin → ℕ → State B → Result (State B) Failure
  set_minting_interval origin interval s =
      ensure_root origin >>= λ _. ok (record s { minting_interval = interval })

  -- The next `n` blocks, with no call in between.
  unfoldable pub finalize_blocks : ℕ → State B → Result (State B) Failure
  finalize_blocks zero s = ok s
  finalize_blocks (suc n) s =
      on_finalize (record s { block_number = s.block_number + 1 }) >>= λ t. finalize_blocks n t
