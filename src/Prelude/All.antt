-- ===== src/Prelude/All.antt =====
-- A predicate on all elements of a list, and what the elements that a test keeps satisfy.
use mathlib.Core.Path.{◌≡◌, refl, ap}
use mathlib.Core.Logic.{inl, inr}
use mathlib.Core.List.{List, [], ◌∷◌, ◌++◌}
use mathlib.Core.Bool.{Bool, true, false}
use edgeware_node.Prelude.Tests.{Bool-cases}
use edgeware_node.Prelude.Lists.{keep}

module _ {ℓ κ} {A : Type ℓ} where
  abbrev pub All : (A → Type κ) → List A → Type κ
  All P [] = Unit
  All P (x ∷ xs) = P x × All P xs

  module _ (P : A → Type κ) where
    pub All-append : (xs ys : List A) → All P xs → All P ys → All P (xs ++ ys)
    All-append [] ys h k = k
    All-append (x ∷ xs) ys h k = (h.0, All-append xs ys (h.1) k)

    pub All-keep : (test : A → Bool) (xs : List A) → All P xs → All P (keep test xs)
    All-keep test [] h = tt
    All-keep test (x ∷ xs) h = elim (Bool-cases (test x)) [
      | inl e ↦ rw e (h.0, All-keep test xs (h.1))
      | inr e ↦ rw e (All-keep test xs (h.1))
    ]

module _ {ℓ κ κ'} {A : Type ℓ} (P : A → Type κ) (Q : A → Type κ') where
  pub All-mono : ((x : A) → P x → Q x) → (xs : List A) → All P xs → All Q xs
  All-mono f [] h = tt
  All-mono f (x ∷ xs) h = (f x (h.0), All-mono f xs (h.1))

module _ {ℓ} {A : Type ℓ} (test : A → Bool) where
  pub keep-passes : (xs : List A) → All (λ x. test x ≡ true) (keep test xs)
  keep-passes [] = tt
  keep-passes (x ∷ xs) = elim (Bool-cases (test x)) [
    | inl e ↦ rw e (e, keep-passes xs)
    | inr e ↦ rw e (keep-passes xs)
  ]

  pub keep_none : (xs : List A) → All (λ x. test x ≡ false) xs → keep test xs ≡ []
  keep_none [] h = refl
  keep_none (x ∷ xs) h = rw (h.0) (keep_none xs (h.1))

  pub keep-append : (xs ys : List A) → keep test (xs ++ ys) ≡ keep test xs ++ keep test ys
  keep-append [] ys = refl
  keep-append (x ∷ xs) ys = elim (Bool-cases (test x)) [
    | inl e ↦ rw e (ap (◌∷◌ x) (keep-append xs ys))
    | inr e ↦ rw e (keep-append xs ys)
  ]
