-- ===== src/BTreeMap.antt =====
-- `std::collections::BTreeMap` with integer keys, as a list of entries in the order of the keys.
use edgeware_node.Prelude.{
  ℕ, suc, ◌+◌, ◌≤◌, ◌<◌, ◌≡◌, refl, List, [], ◌∷◌, ◌++◌, Option, none, some, arith, ltb, ◌==◌,
  if◌then◌else◌,
}

abbrev pub BTreeMap {ℓ} : Type ℓ → Type ℓ
BTreeMap V = List (ℕ × V)

module _ {ℓ} {V : Type ℓ} where
  unfoldable pub get : ℕ → BTreeMap V → Option V
  get k [] = none
  get k ((j, v) ∷ m) = if j == k then some v else get k m

  unfoldable pub insert : ℕ → V → BTreeMap V → BTreeMap V
  insert k v [] = (k, v) ∷ []
  insert k v ((j, w) ∷ m) =
      if j == k then (k, v) ∷ m else if ltb k j then (k, v) ∷ (j, w) ∷ m else (j, w) ∷ insert k v m

  unfoldable pub remove : ℕ → BTreeMap V → BTreeMap V
  remove k [] = []
  remove k ((j, w) ∷ m) = if j == k then remove k m else (j, w) ∷ remove k m

  pub get-insert :
      (k j : ℕ) (v : V) (m : BTreeMap V)
      → get j (insert k v m) ≡ (if k == j then some v else get j m)
  unfolding get insert
  get-insert k j v [] = refl
  get-insert k j v ((i, w) ∷ m) = ground (arith, get-insert k j v m)

  pub get-remove :
      (k j : ℕ) (m : BTreeMap V) → get j (remove k m) ≡ (if k == j then none else get j m)
  unfolding get remove
  get-remove k j [] = ground arith
  get-remove k j ((i, w) ∷ m) = ground (arith, get-remove k j m)

  -- Only the empty map has no key.
  pub empty_of_get : (m : BTreeMap V) → ((k : ℕ) → get k m ≡ none) → m ≡ []
  unfolding get
  empty_of_get [] h = refl
  empty_of_get ((k, v) ∷ m) h = ground (arith, h k)

  -- The keys rise along the list, from `n` on.
  abbrev pub From : ℕ → BTreeMap V → Type 0
  From n [] = Unit {0}
  From n ((k, v) ∷ m) = (n ≤ k) × From (suc k) m

  pub From-le : {n n' : ℕ} (m : BTreeMap V) → n' ≤ n → From n m → From n' m
  From-le [] h s = tt
  From-le ((k, v) ∷ m) h s = (omega arith, s.1)

  pub insert-From : (n k : ℕ) (v : V) (m : BTreeMap V) → n ≤ k → From n m → From n (insert k v m)
  unfolding insert
  insert-From n k v [] h s = (h, tt)
  insert-From n k v ((j, w) ∷ m) h s = ground (arith, insert-From (suc j) k v m)

  pub remove-From : (n k : ℕ) (m : BTreeMap V) → From n m → From n (remove k m)
  unfolding remove
  remove-From n k [] s = tt
  remove-From n k ((j, w) ∷ m) s =
      ground (arith, remove-From (suc j) k m s.1, From-le {n = suc j} {n' = n} (remove k m))

  pub get_below : (n k : ℕ) (m : BTreeMap V) → k < n → From n m → get k m ≡ none
  unfolding get
  get_below n k [] h s = refl
  get_below n k ((j, w) ∷ m) h s = ground (arith, get_below (suc j) k m (omega arith) s.1)

  -- Every key is below `n`.
  abbrev pub Below : ℕ → BTreeMap V → Type 0
  Below n [] = Unit {0}
  Below n ((k, v) ∷ m) = (k < n) × Below n m

  pub Below-le : {n n' : ℕ} (m : BTreeMap V) → n ≤ n' → Below n m → Below n' m
  Below-le [] h b = tt
  Below-le ((k, v) ∷ m) h b = (omega arith, Below-le m h b.1)

  pub insert-Below : (n k : ℕ) (v : V) (m : BTreeMap V) → k < n → Below n m → Below n (insert k v m)
  unfolding insert
  insert-Below n k v [] h b = (h, tt)
  insert-Below n k v ((j, w) ∷ m) h b = ground (arith, insert-Below n k v m)

  pub remove-Below : (n k : ℕ) (m : BTreeMap V) → Below n m → Below n (remove k m)
  unfolding remove
  remove-Below n k [] b = tt
  remove-Below n k ((j, w) ∷ m) b = ground (arith, remove-Below n k m)

  pub get_above : (n k : ℕ) (m : BTreeMap V) → n ≤ k → Below n m → get k m ≡ none
  unfolding get
  get_above n k [] h b = refl
  get_above n k ((j, w) ∷ m) h b = ground (arith, get_above n k m)

  -- A sum over the values.
  module _ (weight : V → ℕ) where
    abbrev pub total : BTreeMap V → ℕ
    total [] = 0
    total ((k, v) ∷ m) = weight v + total m

    abbrev pub weight_of : Option V → ℕ
    weight_of none = 0
    weight_of (some v) = weight v

    pub total-insert :
        (n k : ℕ) (v : V) (m : BTreeMap V)
        → From n m
        → total (insert k v m) + weight_of (get k m) ≡ total m + weight v
    unfolding insert get
    total-insert n k v [] s = omega arith
    total-insert n k v ((j, w) ∷ m) s =
        ground (arith, total-insert (suc j) k v m, get_below (suc j) k m)

    pub total-remove :
        (n k : ℕ) (m : BTreeMap V) → From n m → total (remove k m) + weight_of (get k m) ≡ total m
    unfolding remove get
    total-remove n k [] s = omega arith
    total-remove n k ((j, w) ∷ m) s =
        ground (arith, total-remove (suc j) k m, get_below (suc j) k m)

module _ {ℓ} {V : Type ℓ} where
  pub append-From :
      (n k : ℕ) (m l : BTreeMap V) → From n m → Below k m → n ≤ k → From k l → From n (m ++ l)
  append-From n k [] l s b h t = From-le l h t
  append-From n k ((j, w) ∷ m) l s b h t = (s.0, append-From (suc j) k m l s.1 b.1 (omega arith) t)

  pub append-Below : (n : ℕ) (m l : BTreeMap V) → Below n m → Below n l → Below n (m ++ l)
  append-Below n [] l b c = c
  append-Below n ((j, w) ∷ m) l b c = (b.0, append-Below n m l b.1 c)

  -- A new key goes between the smaller and the larger ones.
  pub insert_between :
      (k : ℕ) (v : V) (m l : BTreeMap V)
      → Below k m
      → From (suc k) l
      → insert k v (m ++ l) ≡ m ++ (k, v) ∷ l
  unfolding insert
  insert_between k v [] [] b s = refl
  insert_between k v [] ((j, w) ∷ l) b s = ground arith
  insert_between k v ((j, w) ∷ m) l b s = ground (arith, insert_between k v m l b.1 s)

pub total-le {ℓ} :
    {V : Type ℓ} (f g : V → ℕ) (m : BTreeMap V) → ((v : V) → f v ≤ g v) → total f m ≤ total g m
total-le f g [] h = omega arith
total-le f g ((k, v) ∷ m) h = omega (arith, h v, total-le f g m h)

pub weight-le-total {ℓ} :
    {V : Type ℓ} (f : V → ℕ) (k : ℕ) (m : BTreeMap V) → weight_of f (get k m) ≤ total f m
unfolding get
weight-le-total f k [] = omega arith
weight-le-total f k ((j, v) ∷ m) = ground (arith, weight-le-total f k m)
