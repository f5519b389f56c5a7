-- ===== src/Number/Encoding/Text.antt =====
-- The texts of `Bml::to_binary` and `Bml::from_binary` of crates/domain/src/number/encoding.rs.
use mathlib.Core.List.{reverse}
use bml.Prelude.{
  ℕ, zero, suc, ◌+◌, ◌-◌, ◌/◌, ◌^◌, ◌<◌, ◌≡◌, refl, sym, ap, ◌∙◌, true, false, ◌&&◌, none, List, [],
  ◌∷◌, inl, inr, arith, ltb, ltb→lt, lt→ltb, ltb→le, ◌==◌, if◌then◌else◌, Bool-cases, length,
  replicate, length-replicate, get_or_of_ge, ok,
}
use bml.Symbolic.Term.{ClosedTerm}
use bml.Number.Encoding.{
  Bml, bit_at, bit, bit_len, checked_add, set_digits, invalid_index, from_words_le, from_binary,
  to_binary, digits,
}
use bml.Number.Encoding.Bits.{AreU64, replicate-AreU64, length-digits}
use bml.Number.Encoding.Canonical.{
  EndsNonzero, IsCanonical, bit_len_top, bit_len_above, bit_len-pos, bit_len-nil,
}
use bml.Number.Encoding.Validate.{IsAddressable}
use bml.Number.Encoding.Op.{Represents, bit_at-replicate}
use bml.Number.Encoding.Import.{from_words_le_of_bits}
use bml.Number.Encoding.Digits.{
  length-reverse, get_or-reverse-digits, set_digits-AreU64, set_digits_lem,
}

-- The digit that `to_binary` prints for a bit.
abbrev digit : Bml → ℕ → ℕ
digit b i = if bit b i then b'1' else b'0'

-- A term of more than one bit has its highest bit set.
highest_bit : (b : Bml) → IsCanonical b → 1 < bit_len b → bit b (bit_len b - 1) ≡ true
unfolding bit
highest_bit b c = go b.words c.words_fit c.ends
  where
    go :
        (ws : List ℕ)
        → AreU64 ws
        → EndsNonzero ws
        → 1 < bit_len (record { words = ws })
        → bit_at ws (bit_len (record { words = ws }) - 1) ≡ true
    go [] f e l = absurd (omega (arith, bit_len-nil))
    go (w ∷ ws) f e l = (bit_len_top w ws f e).2

valid_digits : (b : Bml) (n i : ℕ) → invalid_index (digits (digit b) n) i ≡ none
unfolding invalid_index digits
valid_digits b zero i = refl
valid_digits b (suc n) i = ground (arith, valid_digits b n (i + 1))

-- The words that `from_binary` fills from the text of a term have the bits of the term.
abbrev filled : Bml → ℕ → List ℕ
filled b n = set_digits (reverse (digits (digit b) n)) 0 (replicate ((n + 63) / 64) 0)

bit_at-filled :
    (b : Bml) (j : ℕ) → IsCanonical b → bit_at (filled b (bit_len b)) j ≡ bit_at b.words j
unfolding bit
bit_at-filled b j c =
    let n = bit_len b in
    let xs = reverse (digits (digit b) n) in
    let len : length xs ≡ n = length-reverse (digits (digit b) n) ∙ length-digits (digit b) n in
    let z : j - 0 ≡ j = omega arith in
    set_digits_lem xs 0 j (replicate ((n + 63) / 64) 0)
      (omega (arith, len, length-replicate {A = ℕ} ((n + 63) / 64) 0))
    ∙ rw (z, bit_at-replicate)
        (elim (Bool-cases (ltb j n)) [
          | inl l ↦ rw (get_or-reverse-digits (digit b) n j 0 (ltb→lt j n l)) (ground arith)
          | inr l ↦
              rw
                (
                  get_or_of_ge xs j 0 (omega (arith, len, ltb→le j n l)),
                  bit_len_above b j c.words_fit (ltb→le j n l),
                )
                (ground arith)
        ])

from_binary-cons :
    (c : ℕ) (cs : List ℕ)
    → invalid_index (c ∷ cs) 0 ≡ none
    → (ltb 1 (length (c ∷ cs)) && c == b'0') ≡ false
    → length (c ∷ cs) + 63 < 2 ^ 64
    → from_binary (c ∷ cs)
      ≡ from_words_le (set_digits (reverse (c ∷ cs)) 0 (replicate ((length (c ∷ cs) + 63) / 64) 0))
unfolding from_binary checked_add
from_binary-cons c cs valid first small =
    rw (valid, from_binary, first, lt→ltb (length (c ∷ cs) + 63) (2 ^ 64) small)

from_binary-digits :
    (b : Bml) (m : ℕ) {t : ClosedTerm}
    → Represents b t
    → IsAddressable b
    → bit_len b ≡ suc m
    → from_binary (digits (digit b) (suc m)) ≡ ok b
from_binary-digits b m {t} r small e =
    let len : length (digits (digit b) (suc m)) ≡ suc m = length-digits (digit b) (suc m) in
    shown
    ∙ ap
        (λ n.
          from_words_le
            (set_digits (reverse (digits (digit b) (suc m))) 0 (replicate ((n + 63) / 64) 0)))
        len
    ∙ ap (λ n. from_words_le (filled b n)) (sym e)
    ∙ from_words_le_of_bits (filled b (bit_len b)) b
        (set_digits-AreU64 (reverse (digits (digit b) (bit_len b))) 0 _
          (replicate-AreU64 ((bit_len b + 63) / 64)))
        r small (λ j. bit_at-filled b j r.canonical)
  where
    first_one : 0 < m → bit b m ≡ true
    first_one h = ap (bit b) (omega arith) ∙ highest_bit b r.canonical (omega arith)

    first : (ltb 1 (length (digit b m ∷ digits (digit b) m)) && digit b m == b'0') ≡ false
    first = elim (Bool-cases (ltb 0 m)) [
      | inl h ↦ rw (first_one (ltb→lt 0 m h)) (ground arith)
      | inr h ↦ ground (arith, length-digits (digit b) m)
    ]

    shown :
        from_binary (digits (digit b) (suc m))
        ≡ from_words_le (
            set_digits
              (reverse (digits (digit b) (suc m)))
              0
              (replicate ((length (digits (digit b) (suc m)) + 63) / 64) 0))
    shown =
        unfold digits in
        from_binary-cons (digit b m) (digits (digit b) m)
          (unfold digits in valid_digits b (suc m) 0) first
          (omega (arith, length-digits (digit b) m))

-- Reading the text that `to_binary` writes for a term, of a length that `usize` can count, gives the
-- term back.
pub from_binary-to_binary :
    (b : Bml) {t : ClosedTerm} → Represents b t → IsAddressable b → from_binary (to_binary b) ≡ ok b
unfolding to_binary
from_binary-to_binary b r small =
    let m = bit_len b - 1 in
    let e : bit_len b ≡ suc m = omega (arith, bit_len-pos b r.canonical) in
    ap (λ n. from_binary (digits (digit b) n)) e ∙ from_binary-digits b m r small e
