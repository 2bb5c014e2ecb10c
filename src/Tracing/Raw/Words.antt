-- ===== src/Tracing/Raw/Words.antt =====
-- client/evm-tracing/src/types/mod.rs, `convert_memory`: how the memory is cut into words.
use mathlib.Core.List.{append-nil, append_assoc}
use edgeware_node.Prelude.{
  ℕ, zero, suc, ◌+◌, ◌*◌, ◌≤◌, ◌<◌, ◌/◌, ◌%◌, ◌-◌, ◌∙◌, ◌⊎◌, inl, inr, ◌≡◌, refl, sym, ap, subst,
  [], ◌∷◌, ◌++◌, arith, length, take, drop, length-append, length-drop, drop-append_ge,
  take-append_le, take_all,
}
use edgeware_node.Prelude.Text.{Bytes}
use edgeware_node.Tracing.Raw.State.{word_of, words_in, convert_memory}

-- Any fuel of at least the number of bytes gives the same words.
words_in-fuel :
    (n m : ℕ) (bs : Bytes) → length bs ≤ n → length bs ≤ m → words_in n bs ≡ words_in m bs
words_in-fuel zero zero bs h k = refl
words_in-fuel zero (suc m) [] h k = refl
words_in-fuel zero (suc m) (b ∷ bs) h k = absurd (omega arith)
words_in-fuel (suc n) zero [] h k = refl
words_in-fuel (suc n) zero (b ∷ bs) h k = absurd (omega arith)
words_in-fuel (suc n) (suc m) [] h k = refl
words_in-fuel (suc n) (suc m) (b ∷ bs) h k =
    ap (λ ws. word_of 0 (take 32 (b ∷ bs)) ∷ ws)
      (words_in-fuel n m (drop 32 (b ∷ bs)) (omega (arith, length-drop 32 (b ∷ bs)))
        (omega (arith, length-drop 32 (b ∷ bs))))

-- The bytes of a number in big-endian order: the lowest is the last.
abbrev pub big_endian : ℕ → ℕ → Bytes
big_endian zero w = []
big_endian (suc n) w = big_endian n (w / 256) ++ w % 256 ∷ []

abbrev pub zeros : ℕ → Bytes
zeros zero = []
zeros (suc n) = 0 ∷ zeros n

abbrev pub AllBytes : Bytes → Type 0
AllBytes [] = Unit
AllBytes (b ∷ bs) = (b < 256) × AllBytes bs

zeros-last : (n : ℕ) → zeros n ++ 0 ∷ [] ≡ 0 ∷ zeros n
zeros-last zero = refl
zeros-last (suc n) = ap (λ bs. 0 ∷ bs) (zeros-last n)

big_endian-zero : (n : ℕ) → big_endian n 0 ≡ zeros n
big_endian-zero zero = refl
big_endian-zero (suc n) = ap (λ bs. bs ++ 0 ∷ []) (big_endian-zero n) ∙ zeros-last n

-- Reading bytes and writing them again.
big_endian-word_of :
    (k n acc : ℕ) (bs : Bytes)
    → AllBytes bs
    → n ≡ k + length bs
    → big_endian n (word_of acc bs) ≡ big_endian k acc ++ bs
big_endian-word_of k n acc [] small h =
    ap (λ m. big_endian m acc) h' ∙ sym (append-nil (big_endian k acc))
  where
    h' : n ≡ k
    h' = omega (arith, h)
big_endian-word_of k n acc (b ∷ bs) small h =
    big_endian-word_of (suc k) n (acc * 256 + b) bs small.1 (omega (arith, h)) ∙ last_digit
  where
    quotient : (acc * 256 + b) / 256 ≡ acc
    quotient = omega (arith, small.0)

    digit : (acc * 256 + b) % 256 ≡ b
    digit = omega (arith, small.0)

    last_digit :
        (big_endian k ((acc * 256 + b) / 256) ++ (acc * 256 + b) % 256 ∷ []) ++ bs
        ≡ big_endian k acc ++ b ∷ bs
    last_digit = rw (quotient, digit) (append_assoc (big_endian k acc) (b ∷ []) bs)

padded :
    (bs : Bytes)
    → AllBytes bs
    → length bs ≤ 32
    → big_endian 32 (word_of 0 bs) ≡ zeros (32 - length bs) ++ bs
padded bs small h =
    big_endian-word_of (32 - length bs) 32 0 bs small (omega arith)
    ∙ ap (λ z. z ++ bs) (big_endian-zero (32 - length bs))

words_in_nothing : (n : ℕ) (bs : Bytes) → length bs ≡ 0 → words_in n bs ≡ []
words_in_nothing zero bs h = refl
words_in_nothing (suc n) [] h = refl
words_in_nothing (suc n) (b ∷ bs) h = absurd (omega (arith, h))

-- Of a memory that begins with a chunk of 32 bytes, or is a shorter one itself, the first word is
-- the number with these bytes in big-endian order, with zeros in front of a shorter one, and the
-- other words are those of the rest.
pub convert_memory-words :
    (b : ℕ) (chunk bs : Bytes)
    → AllBytes (b ∷ chunk)
    → (length (b ∷ chunk) ≡ 32) ⊎ ((length (b ∷ chunk) ≤ 32) × (bs ≡ []))
    → (w : ℕ) × (convert_memory (b ∷ chunk ++ bs) ≡ w ∷ convert_memory bs)
      × (big_endian 32 w ≡ zeros (32 - length (b ∷ chunk)) ++ b ∷ chunk)
unfolding convert_memory
convert_memory-words b chunk bs small (inl full) = (
  word_of 0 (b ∷ chunk),
  rw
      (
        take-append_le 31 chunk bs (omega arith),
        take_all 31 chunk (omega arith),
        drop-append_ge 31 0 chunk bs (omega arith),
      )
      (ap (λ ws. word_of (0 + b) chunk ∷ ws)
        (words_in-fuel (length (chunk ++ bs)) (length bs) bs (omega (arith, length-append chunk bs))
          (omega arith))),
  padded (b ∷ chunk) small (omega (arith, full)),
)
convert_memory-words b chunk bs small (inr (short, last)) = (
  word_of 0 (b ∷ chunk),
  subst (λ r. convert_memory (b ∷ chunk ++ r) ≡ word_of 0 (b ∷ chunk) ∷ convert_memory r) (sym last)
      (rw (append-nil chunk, take_all 31 chunk (omega arith))
        (ap (λ ws. word_of (0 + b) chunk ∷ ws)
          (words_in_nothing (length chunk) (drop 31 chunk) (omega (arith, length-drop 31 chunk))))),
  padded (b ∷ chunk) small short,
)
