-- ===== src/Tracing/Opcodes/Contexts.antt =====
-- What the listeners make of the names of the opcodes.
use mathlib.Core.Option.{some-injective}
use edgeware_node.Prelude.{
  subst, ℕ, ◌≡◌, refl, sym, ◌∙◌, inl, inr, List, [], ◌∷◌, ◌++◌, Option, none, some, Bool, true,
  false, ◌&&◌, ◌||◌, arith, ◌==◌, if◌then◌else◌, Option-cases, Bool-cases, ==_iff,
}
use edgeware_node.Prelude.Text.{Bytes, bytes}
use edgeware_node.Tracing.Types.{CallType, ContextType, from_opcode}
use edgeware_node.Tracing.Opcodes.{names, name_of, opcodes_string, name_or_unknown}

-- The opcodes that begin a context: CREATE, CREATE2, CALL, CALLCODE, DELEGATECALL and STATICCALL.
abbrev pub opcode_context : ℕ → Option ContextType
opcode_context n =
    if n == 240
    then some ContextType.create
    else if n == 245
    then some ContextType.create
    else if n == 241
    then some (ContextType.call CallType.call)
    else if n == 242
    then some (ContextType.call CallType.call_code)
    else if n == 244
    then some (ContextType.call CallType.delegate_call)
    else if n == 250
    then some (ContextType.call CallType.static_call)
    else none

-- The contexts by numbers, to compare them by computation.
abbrev number_of : Option ContextType → ℕ
number_of none = 0
number_of (some ContextType.create) = 1
number_of (some (ContextType.call CallType.call)) = 2
number_of (some (ContextType.call CallType.call_code)) = 3
number_of (some (ContextType.call CallType.delegate_call)) = 4
number_of (some (ContextType.call CallType.static_call)) = 5

number_of-injective : (c d : Option ContextType) → number_of c ≡ number_of d → c ≡ d
number_of-injective c d e = ground arith

abbrev agree : List (ℕ × Bytes) → Bool
agree [] = true
agree ((k, name) ∷ es) = number_of (from_opcode name) == number_of (opcode_context k) && agree es

agree-names : agree names ≡ true
unfolding names from_opcode
agree-names = refl

name_of-agree :
    (es : List (ℕ × Bytes)) (n : ℕ) (name : Bytes)
    → agree es ≡ true
    → name_of es n ≡ some name
    → from_opcode name ≡ opcode_context n
unfolding name_of
name_of-agree [] n name all found = absurd (ground arith)
name_of-agree ((k, c) ∷ es) n name all found = elim (Bool-cases (k == n)) [
  | inl same ↦
      subst (λ x. from_opcode x ≡ opcode_context n) (some-injective _ _ (rw same at found))
        (subst (λ x. from_opcode c ≡ opcode_context x) ((==_iff k n).0 same)
          (number_of-injective _ _ (ground arith)))
  | inr other ↦ name_of-agree es n name (ground arith) (rw other at found)
]

abbrev has : ℕ → List (ℕ × Bytes) → Bool
has k [] = false
has k ((j, name) ∷ es) = j == k || has k es

missed_key :
    (es : List (ℕ × Bytes)) (n k : ℕ) → has k es ≡ true → name_of es n ≡ none → (n == k) ≡ false
unfolding name_of
missed_key [] n k there missed = absurd (ground arith)
missed_key ((j, name) ∷ es) n k there missed = elim (Bool-cases (j == n)) [
  | inl same ↦ absurd (ground arith)
  | inr other ↦ elim (Bool-cases (j == k)) [
    | inl here ↦ ground arith
    | inr later ↦ missed_key es n k (ground arith) (rw other at missed)
  ]
]

unnamed : (n : ℕ) → name_of names n ≡ none → opcode_context n ≡ none
unfolding names
unnamed n missed =
    let no : (k : ℕ) → has k names ≡ true → (n == k) ≡ false =
      λ k there. missed_key names n k there missed in
    rw (no 240 refl, no 245 refl, no 241 refl, no 242 refl, no 244 refl, no 250 refl) refl

unknown : (bs : Bytes) → from_opcode (bytes "Unknown(" ++ bs) ≡ none
unfolding from_opcode
unknown bs = refl

-- The runtime names an opcode and the listeners read the name: what they find is a call or a
-- creation exactly for the opcodes that begin a context, and of the right type.
pub from_opcode-opcodes_string : (n : ℕ) → from_opcode (opcodes_string n) ≡ opcode_context n
unfolding opcodes_string name_or_unknown
from_opcode-opcodes_string n = elim (Option-cases (name_of names n)) [
  | inl missed ↦ rw missed (unknown _ ∙ sym (unnamed n missed))
  | inr (b, found) ↦ rw found (name_of-agree names n b agree-names found)
]
