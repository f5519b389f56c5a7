-- ===== src/Number/Encoding.antt =====
-- crates/domain/src/number/encoding.rs and the record `Bml` of number/mod.rs. A `Vec<u64>` is a
-- list of native numbers; `usize` has 64 bits, and a checked sum is an option. A text is the list
-- of its bytes.
pub mod Bits
pub mod Canonical
pub mod Validate
pub mod Op
pub mod Trim
pub mod Import
pub mod Digits
pub mod Text
pub mod Eval
use mathlib.Core.List.{reverse}
use bml.Prelude.{
  ℕ, zero, suc, ◌+◌, ◌-◌, ◌*◌, ◌/◌, ◌%◌, ◌^◌, Bool, false, not, ◌&&◌, Option, none, some, List, [],
  ◌∷◌, ltb, ◌==◌, if◌then◌else◌, length, get_elem?, get_or, set, take, replicate, Result, ok, err,
  ok_or, ◌>>=◌, ◌>>◌,
}
use bml.Number.Words.{test_bit, or_bit, leading_zeros}

abbrev pub default_max_bits : ℕ
default_max_bits = 1_048_576

pub data EncodingError : Type 0 where
  empty : EncodingError
  invalid_digit : ℕ → EncodingError
  leading_zero : EncodingError
  truncated : EncodingError
  trailing_bits : EncodingError
  size_overflow : EncodingError

pub data BuildError : Type 0 where
  bit_limit : ℕ → ℕ → BuildError
  size_overflow : BuildError

-- The words are little-endian.
pub record Bml : Type 0 where
  pub words : List ℕ

-- `usize::checked_add`
unfoldable pub checked_add : ℕ → ℕ → Option ℕ
checked_add a b = if ltb (a + b) (2 ^ 64) then some (a + b) else none

-- `Iterator::rposition`
unfoldable pub rposition {ℓ} : {A : Type ℓ} → (A → Bool) → List A → Option ℕ
rposition p [] = none
rposition p (x ∷ xs) = elim (rposition p xs) [
  | some i ↦ some (suc i)
  | none ↦ if p x then some 0 else none
]

unfoldable pub get_last? {ℓ} : {A : Type ℓ} → List A → Option A
get_last? [] = none
get_last? (x ∷ []) = some x
get_last? (x ∷ y ∷ xs) = get_last? (y ∷ xs)

unfoldable pub one : Bml
one = record { words = [] }

-- `Bml::bit` on the words.
unfoldable pub bit_at : List ℕ → ℕ → Bool
bit_at ws i = elim (get_elem? ws (i / 64)) [ none ↦ false | some word ↦ test_bit word (i % 64) ]

unfoldable pub bit : Bml → ℕ → Bool
unfolding bit_at
bit b i = bit_at b.words i

unfoldable pub bit_len : Bml → ℕ
bit_len b = elim (get_last? b.words) [
  | none ↦ 1
  | some word ↦ (length b.words - 1) * 64 + (64 - leading_zeros 64 word)
]

-- The loop of `validate` over the bits below `n`, the highest first.
unfoldable pub validate_from : Bml → ℕ → ℕ → Result EncodingError (Unit {0})
validate_from b zero slots = if slots == 0 then ok tt else err truncated
validate_from b (suc index) slots =
    let rest =
      (if bit b index
        then ok_or (checked_add (slots - 1) 2) EncodingError.size_overflow
        else ok (slots - 1))
      >>= validate_from b index in
    if slots == 0 then err trailing_bits else rest

unfoldable pub validate : Bml → Result EncodingError (Unit {0})
unfolding validate_from
validate b = validate_from b (bit_len b) 1

unfoldable pub from_words_le : List ℕ → Result EncodingError Bml
unfolding rposition
from_words_le words =
    let len : ℕ = elim (rposition (λ word. not (word == 0)) words) [ none ↦ 0 | some i ↦ suc i ] in
    let value : Bml = record { words = take len words } in validate value >> ok value

unfoldable pub from_u64 : ℕ → Result EncodingError Bml
unfolding from_words_le
from_u64 value = from_words_le (value ∷ [])

unfoldable pub to_u64 : Bml → Option ℕ
to_u64 b = words_to_u64 b.words
  where
    words_to_u64 : List ℕ → Option ℕ
    words_to_u64 [] = some 0
    words_to_u64 (word ∷ []) = some word
    words_to_u64 (word ∷ _ ∷ _) = none

-- `words[i / 64] |= 1u64 << (i % 64)`
unfoldable pub or_word : List ℕ → ℕ → List ℕ
or_word ws i = set ws (i / 64) (or_bit (get_or ws (i / 64) 0) (i % 64))

-- The first byte that is no binary digit.
unfoldable pub invalid_index : List ℕ → ℕ → Option ℕ
invalid_index [] index = none
invalid_index (byte ∷ bytes) index =
    let rest = invalid_index bytes (index + 1) in
    if not (byte == b'0') && not (byte == b'1') then some index else rest

-- The loop of `from_binary` over the reversed text.
unfoldable pub set_digits : List ℕ → ℕ → List ℕ → List ℕ
set_digits [] index words = words
set_digits (byte ∷ bytes) index words =
    set_digits bytes (index + 1) (if byte == b'1' then or_word words index else words)

unfoldable pub from_binary : List ℕ → Result EncodingError Bml
from_binary [] = err empty
from_binary (byte ∷ bytes) = elim (invalid_index (byte ∷ bytes) 0) [
  | some index ↦ err (invalid_digit index)
  | none ↦ if ltb 1 (length (byte ∷ bytes)) && byte == b'0' then err leading_zero else do
    padded ← ok_or (checked_add (length (byte ∷ bytes)) 63) EncodingError.size_overflow
    from_words_le (set_digits (reverse (byte ∷ bytes)) 0 (replicate (padded / 64) 0))
]

-- The values of `f` below `n`, the highest index first: `(0..n).rev().map(f)`.
unfoldable pub digits {ℓ} : {A : Type ℓ} → (ℕ → A) → ℕ → List A
digits f zero = []
digits f (suc n) = f n ∷ digits f n

unfoldable pub to_binary : Bml → List ℕ
to_binary b = digits (λ i. if bit b i then b'1' else b'0') (bit_len b)

-- `for i in 0..n { if src.bit(i) { words[(i + shift) / 64] |= … } }`, from `i` on.
unfoldable pub copy_bits : Bml → ℕ → ℕ → ℕ → List ℕ → List ℕ
copy_bits src shift zero i words = words
copy_bits src shift (suc n) i words =
    copy_bits src shift n (i + 1) (if bit src i then or_word words (i + shift) else words)

-- The words that `op_with_limit` fills.
unfoldable pub op_words : Bml → Bml → ℕ → ℕ → List ℕ
op_words a b len count =
    copy_bits a (bit_len b) (bit_len a) 0
      (copy_bits b 0 (bit_len b) 0 (or_word (replicate count 0) (len - 1)))

unfoldable pub op_with_limit : Bml → Bml → ℕ → Result BuildError Bml
op_with_limit a b max_bits = do
  sum ← ok_or (checked_add (bit_len a) (bit_len b)) BuildError.size_overflow
  len ← ok_or (checked_add sum 1) BuildError.size_overflow
  if ltb max_bits len then err (bit_limit len max_bits) else do
    padded ← ok_or (checked_add len 63) BuildError.size_overflow
    ok (record { words = op_words a b len (padded / 64) })

unfoldable pub op : Bml → Bml → Result BuildError Bml
op a b = op_with_limit a b default_max_bits
