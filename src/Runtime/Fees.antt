-- ===== src/Runtime/Fees.antt =====
-- node/runtime/src/lib.rs, `DealWithFees`, and impls.rs, `Author`: who gets the fees and the tips.
-- An imbalance is its amount. How a library splits one is the parameter `ration`.
use edgeware_node.Prelude.{
  ℕ, zero, suc, ◌+◌, ◌≡◌, refl, List, [], ◌∷◌, Option, none, some, arith, ◌==◌, if◌then◌else◌,
}

pub data Credit : Type 0 where
  treasury : ℕ → Credit
  -- the author's account
  author : ℕ → ℕ → Credit

abbrev pub Ration : Type 0
Ration = ℕ → ℕ → ℕ → ℕ × ℕ

-- `ration_merge_into`.
unfoldable pub ration_merge_into : Ration → ℕ → ℕ → ℕ → ℕ × ℕ → ℕ × ℕ
ration_merge_into ration amount first second split =
    let parts = ration amount first second in (split.0 + parts.0, split.1 + parts.1)

-- `Author::on_unbalanced`: nothing for zero; `author().unwrap()` panics without an author.
unfoldable pub author_on_unbalanced : Option ℕ → ℕ → Option (List Credit)
author_on_unbalanced who amount = elim who [
  | none ↦ if amount == 0 then some [] else none
  | some account ↦ if amount == 0 then some [] else some (Credit.author account amount ∷ [])
]

credits : Option ℕ → ℕ × ℕ → Option (List Credit)
credits who split = elim (author_on_unbalanced who (split.1)) [
  | none ↦ none
  | some paid ↦ some (Credit.treasury (split.0) ∷ paid)
]

-- `on_unbalanceds`: the fees, then the tips. `none` is a panic.
unfoldable pub on_unbalanceds : Ration → Option ℕ → List ℕ → Option (List Credit)
unfolding credits ration_merge_into author_on_unbalanced
on_unbalanceds ration who [] = some []
on_unbalanceds ration who (fees ∷ []) = credits who (ration fees 80 20)
on_unbalanceds ration who (fees ∷ tips ∷ rest) =
    credits who (ration_merge_into ration tips 80 20 (ration fees 80 20))

abbrev pub total : List Credit → ℕ
total [] = 0
total (Credit.treasury a ∷ cs) = a + total cs
total (Credit.author who a ∷ cs) = a + total cs

credits-total :
    (account : ℕ) (split : ℕ × ℕ)
    → (cs : List Credit) × (credits (some account) split ≡ some cs) × (total cs ≡ split.0 + split.1)
unfolding credits author_on_unbalanced
credits-total account (a, zero) = (_, refl, omega arith)
credits-total account (a, suc b) =
    (Credit.treasury a ∷ Credit.author account (suc b) ∷ [], ground arith, omega arith)

-- If a split loses nothing, and the block has an author, then the fees and the tips are credited to
-- the treasury and the author without loss: the credits add up to them.
pub on_unbalanceds-total :
    (ration : Ration) (account fees tips : ℕ)
    → ((amount first second : ℕ)
        → (ration amount first second).0 + (ration amount first second).1 ≡ amount)
    → (cs : List Credit) × (on_unbalanceds ration (some account) (fees ∷ tips ∷ []) ≡ some cs)
      × (total cs ≡ fees + tips)
unfolding on_unbalanceds ration_merge_into
on_unbalanceds-total ration account fees tips whole =
    let (cs, done, sum) =
      credits-total account (ration_merge_into ration tips 80 20 (ration fees 80 20)) in
    (cs, done, omega (arith, sum, whole fees 80 20, whole tips 80 20))
