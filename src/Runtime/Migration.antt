-- ===== src/Runtime/Migration.antt =====
-- node/runtime/src/migrations.rs, `Web3AccountCreditMigration`, and the currency of constants.rs.
-- The raw storage, which reads and writes an account as five u128, and the hash are parameters.
use edgeware_node.Prelude.{
  ℕ, zero, suc, ◌+◌, ◌*◌, ◌%◌, ◌^◌, ◌≡◌, ◌≢◌, refl, ◌∙◌, ap, List, [], ◌∷◌, ◌++◌, Option, none,
  some, arith,
}

abbrev pub Key : Type 0
Key = List ℕ

-- `[u128; 5]`: the counters, the free balance, and what is reserved or frozen of it.
abbrev pub Account : Type 0
Account = ℕ × ℕ × ℕ × ℕ × ℕ

-- `frame_support::storage::unhashed` on accounts.
pub record Unhashed (S : Type 0) : Type 0 where
  pub get : Key → S → Option Account
  pub take : Key → S → Option Account × S
  pub put : Key → Account → S → S

abbrev pub millicents : ℕ
millicents = 10_000_000_000_000

abbrev pub cents : ℕ
cents = 1_000 * millicents

abbrev pub dollars : ℕ
dollars = 100 * cents

abbrev pub web3_id : Key
web3_id =
    217 ∷ 111 ∷ 215 ∷ 97 ∷ 61 ∷ 81 ∷ 80 ∷ 142 ∷ 237 ∷ 196 ∷ 12 ∷ 200 ∷ 72 ∷ 16 ∷ 130 ∷ 144 ∷ 23
    ∷ 159 ∷ 234 ∷ 111 ∷ 254 ∷ 140 ∷ 193 ∷ 209 ∷ 248 ∷ 102 ∷ 49 ∷ 161 ∷ 142 ∷ 10 ∷ 197 ∷ 95 ∷ []

abbrev pub pfx : Key
pfx =
    38 ∷ 170 ∷ 57 ∷ 78 ∷ 234 ∷ 86 ∷ 48 ∷ 224 ∷ 124 ∷ 72 ∷ 174 ∷ 12 ∷ 149 ∷ 88 ∷ 206 ∷ 247 ∷ 185
    ∷ 157 ∷ 136 ∷ 14 ∷ 198 ∷ 129 ∷ 121 ∷ 156 ∷ 12 ∷ 243 ∷ 14 ∷ 136 ∷ 134 ∷ 55 ∷ 29 ∷ 169 ∷ []

abbrev pub to_credit : ℕ
to_credit = 150_000_000 * dollars

-- The hash has 16 bytes, by its type, so that the copies do not panic.
unfoldable pub storage_key : (Key → Key) → Key
storage_key blake2_128 = pfx ++ (blake2_128 web3_id ++ web3_id)

unfoldable pub credited : Option Account → Account
credited (some (counters, free, reserved, misc_frozen, fee_frozen)) =
    (counters, (free + to_credit) % 2 ^ 128, reserved, misc_frozen, fee_frozen)
credited none = (18446744073709551616, to_credit, 0, 0, 0)

-- The `unwrap` at the end, which reads the account for the log.
unwrapped : {S : Type 0} → Option Account → S → Option S
unwrapped none s = none
unwrapped (some a) s = some s

-- `none` is a panic.
unfoldable pub on_runtime_upgrade : {S : Type 0} → Unhashed S → (Key → Key) → S → Option S
unfolding unwrapped
on_runtime_upgrade unhashed blake2_128 s =
    let sk = storage_key blake2_128 in
    let taken = unhashed.take sk s in
    let written = unhashed.put sk (credited taken.0) taken.1 in
    unwrapped (unhashed.get sk written) written

and_then : {S : Type 0} → (S → Option S) → Option S → Option S
and_then f none = none
and_then f (some s) = f s

-- The migration in several upgrades of the runtime.
unfoldable pub upgrades : {S : Type 0} → Unhashed S → (Key → Key) → ℕ → S → Option S
unfolding and_then
upgrades unhashed blake2_128 zero s = some s
upgrades unhashed blake2_128 (suc n) s =
    and_then (on_runtime_upgrade unhashed blake2_128) (upgrades unhashed blake2_128 n s)

-- An account that is not there is a new one, with one provider and no balance.
abbrev pub account_or_new : Option Account → Account
account_or_new none = (2 ^ 64, 0, 0, 0, 0)
account_or_new (some a) = a

-- An account whose free balance, a u128, is credited some number of times.
abbrev pub with_credits : ℕ → Account → Account
with_credits n (counters, free, reserved, misc_frozen, fee_frozen) =
    (counters, (free + n * to_credit) % 2 ^ 128, reserved, misc_frozen, fee_frozen)

-- What the storage promises of a key and the others.
pub record Lawful {S : Type 0} (unhashed : Unhashed S) : Type 0 where
  pub get-put : (k : Key) (a : Account) (s : S) → unhashed.get k (unhashed.put k a s) ≡ some a
  pub get-put_other :
      (k j : Key) (a : Account) (s : S)
      → k ≢ j
      → unhashed.get j (unhashed.put k a s) ≡ unhashed.get j s
  pub take-get : (k : Key) (s : S) → (unhashed.take k s).0 ≡ unhashed.get k s
  pub get-take_other :
      (k j : Key) (s : S) → k ≢ j → unhashed.get j (unhashed.take k s).1 ≡ unhashed.get j s

module _ {S : Type 0} (unhashed : Unhashed S) (blake2_128 : Key → Key)
    (lawful : Lawful unhashed) where
  abbrev sk : Key
  sk = storage_key blake2_128

  -- One upgrade returns, with the account credited.
  upgrade-credited :
      (s : S)
      → (t : S) × (on_runtime_upgrade unhashed blake2_128 s ≡ some t)
        × (unhashed.get sk t ≡ some (credited (unhashed.get sk s)))
        × ((j : Key) → sk ≢ j → unhashed.get j t ≡ unhashed.get j s)
  unfolding on_runtime_upgrade
  upgrade-credited s = (
    unhashed.put sk (credited (unhashed.take sk s).0) (unhashed.take sk s).1,
    rw (lawful.get-put) refl,
    rw (lawful.get-put, lawful.take-get) refl,
    λ j other. lawful.get-put_other sk j _ _ other ∙ lawful.get-take_other sk j s other,
  )

credited-once : (o : Option Account) → credited o ≡ with_credits 1 (account_or_new o)
unfolding credited
credited-once none = refl
credited-once (some (counters, free, reserved, misc_frozen, fee_frozen)) =
    ap (λ f. (counters, f, reserved, misc_frozen, fee_frozen)) (omega arith)

credited-again : (n : ℕ) (a : Account) → credited (some (with_credits n a)) ≡ with_credits (suc n) a
unfolding credited
credited-again n (counters, free, reserved, misc_frozen, fee_frozen) =
    ap (λ f. (counters, f, reserved, misc_frozen, fee_frozen)) (omega arith)

module _ {S : Type 0} (unhashed : Unhashed S) (blake2_128 : Key → Key)
    (lawful : Lawful unhashed) where
  -- In a storage that reads what was put last, any number of upgrades return, credit the free
  -- balance of the account that many times, modulo 2^128, and keep its other counters; an account
  -- that was not there, or does not decode, is new. No other key of the storage changes.
  pub upgrades-credits :
      (n : ℕ) (s : S)
      → (t : S) × (upgrades unhashed blake2_128 (suc n) s ≡ some t)
        × (unhashed.get (storage_key blake2_128) t
            ≡ some
                (with_credits (suc n) (account_or_new (unhashed.get (storage_key blake2_128) s))))
        × ((j : Key) → storage_key blake2_128 ≢ j → unhashed.get j t ≡ unhashed.get j s)
  unfolding upgrades
  upgrades-credits zero s =
      let (t, done, here, there) = upgrade-credited unhashed blake2_128 lawful s in
      (t, done, here ∙ ap some (credited-once _), there)
  upgrades-credits (suc n) s =
      let (t, done, here, there) = upgrades-credits n s in
      let (u, done', here', there') = upgrade-credited unhashed blake2_128 lawful t in
      (
        u,
        ap (and_then (on_runtime_upgrade unhashed blake2_128)) done ∙ done',
        here' ∙ ap (λ o. some (credited o)) here ∙ ap some (credited-again (suc n) _),
        λ j other. there' j other ∙ there j other,
      )
