-- ===== src/Number/Encoding/Op.antt =====
-- The bits that `Bml::op_with_limit` of crates/domain/src/number/encoding.rs sets.
use bml.Prelude.{
  ℕ, zero, suc, ◌+◌, ◌-◌, ◌/◌, ◌%◌, ◌^◌, ◌≤◌, ◌<◌, ◌≡◌, refl, sym, ap, ap₂, ◌∙◌, true, false, List,
  [], ◌∷◌, ◌++◌, inl, inr, arith, ltb, lt→ltb, ◌==◌, ==_refl, if◌then◌else◌, length, get_or,
  replicate, length-replicate, get_or-replicate, ok, err,
}
use bml.Symbolic.Term.{ClosedTerm}
use bml.Symbolic.Term as Term
use bml.Number.Words.{test_bit, zero-test_bit}
use bml.Number.Prefix.{encode}
use bml.Number.Encoding.{
  BuildError, bit_limit, Bml, bit_at, bit, bit_len, get_last?, one, checked_add, or_word, copy_bits,
  op_words, op_with_limit, digits,
}
use bml.Number.Encoding.Bits.{
  AreU64, replicate-AreU64, or_word-AreU64, copy_bits-AreU64, length-or_word, length-copy_bits,
  bit_at-get_or, bit_at-or_word, bit_at-copy_bits_outside, bit_at-copy_bits_inside, digits_congr,
  digits-add,
}
use bml.Number.Encoding.Canonical.{EndsNonzero, IsCanonical, bit_len_of_top}
use bml.Number.Encoding.Validate.{code}

-- The term that a canonical encoding stands for.
pub record Represents (b : Bml) (t : ClosedTerm) : Type 0 where
  pub canonical : IsCanonical b
  pub code_is : code b ≡ encode t

pub bit_at-replicate : (n j : ℕ) → bit_at (replicate n 0) j ≡ false
bit_at-replicate n j =
    bit_at-get_or (replicate n 0) j
    ∙ ap (λ v. test_bit v (j % 64)) (get_or-replicate n (j / 64) 0)
    ∙ zero-test_bit (j % 64)

-- The last of `n` words is nonzero if one of its bits is set.
pub ends_of_bit :
    (ws : List ℕ) (k : ℕ) → bit_at ws k ≡ true → length ws ≤ k / 64 + 1 → EndsNonzero ws
ends_of_bit ws k t l = go ws (k / 64) l (sym (bit_at-get_or ws k) ∙ t)
  where
    go :
        (vs : List ℕ) (i : ℕ)
        → length vs ≤ i + 1
        → test_bit (get_or vs i 0) (k % 64) ≡ true
        → EndsNonzero vs
    go [] i m e = tt
    go (zero ∷ []) zero m e = let off = zero-test_bit (k % 64) in cc
    go (suc w ∷ []) zero m e = omega arith
    go (w ∷ []) (suc i) m e = let off = zero-test_bit (k % 64) in cc
    go (w ∷ v ∷ vs) zero m e = absurd (omega arith)
    go (w ∷ v ∷ vs) (suc i) m e = go (v ∷ vs) i (omega arith) e

-- The words after each of the three loops.
abbrev top : ℕ → ℕ → List ℕ
top len count = or_word (replicate count 0) (len - 1)

abbrev right : Bml → ℕ → ℕ → List ℕ
right b len count = copy_bits b 0 (bit_len b) 0 (top len count)

module _ (a b : Bml) (len count : ℕ) (is_len : len ≡ bit_len a + bit_len b + 1)
    (is_count : count ≡ (len + 63) / 64) where
  length-top : length (top len count) ≡ count
  length-top = length-or_word (replicate count 0) (len - 1) ∙ length-replicate {A = ℕ} count 0

  length-right : length (right b len count) ≡ count
  length-right = length-copy_bits b 0 (bit_len b) 0 (top len count) ∙ length-top

  length-op_words : length (op_words a b len count) ≡ count
  unfolding op_words
  length-op_words = length-copy_bits a (bit_len b) (bit_len a) 0 (right b len count) ∙ length-right

  bit_at-top : (j : ℕ) → bit_at (top len count) j ≡ (len - 1 == j)
  bit_at-top j =
      let r = length-replicate {A = ℕ} count 0 in
      bit_at-or_word (replicate count 0) (len - 1) j (omega arith)
      ∙ ground (arith, bit_at-replicate count j)

  bit_at-right_low : (j : ℕ) → j < bit_len b → bit_at (right b len count) j ≡ bit b j
  bit_at-right_low j h =
      let z : j + 0 ≡ j = omega arith in
      let p =
        bit_at-copy_bits_inside b 0 (bit_len b) 0 j (top len count) (omega (arith, length-top))
          (omega arith) (omega arith) in
      let q = rw z at p in q ∙ ground (arith, bit_at-top j)

  bit_at-right_high : (j : ℕ) → bit_len b ≤ j → bit_at (right b len count) j ≡ (len - 1 == j)
  bit_at-right_high j h =
      bit_at-copy_bits_outside b 0 (bit_len b) 0 j (top len count) (omega (arith, length-top))
        (inr (omega arith))
      ∙ bit_at-top j

  -- The low bits are those of the right operand.
  op_words_low : (j : ℕ) → j < bit_len b → bit_at (op_words a b len count) j ≡ bit b j
  unfolding op_words
  op_words_low j h =
      bit_at-copy_bits_outside a (bit_len b) (bit_len a) 0 j (right b len count)
        (omega (arith, length-right)) (inl (omega arith))
      ∙ bit_at-right_low j h

  -- Above them stand those of the left operand.
  op_words_mid : (k : ℕ) → k < bit_len a → bit_at (op_words a b len count) (k + bit_len b) ≡ bit a k
  unfolding op_words
  op_words_mid k h =
      bit_at-copy_bits_inside a (bit_len b) (bit_len a) 0 k (right b len count)
        (omega (arith, length-right)) (omega arith) (omega arith)
      ∙ ground (arith, bit_at-right_high (k + bit_len b) (omega arith))

  -- The highest bit marks the application, and nothing stands above it.
  op_words_high :
      (j : ℕ) → bit_len a + bit_len b ≤ j → bit_at (op_words a b len count) j ≡ (len - 1 == j)
  unfolding op_words
  op_words_high j h =
      bit_at-copy_bits_outside a (bit_len b) (bit_len a) 0 j (right b len count)
        (omega (arith, length-right)) (inr (omega arith))
      ∙ bit_at-right_high j (omega arith)

  op_words-IsCanonical : IsCanonical (record { words = op_words a b len count })
  op_words-IsCanonical = record {
    words_fit = fit;
    ends =
        ends_of_bit (op_words a b len count) (len - 1)
          (op_words_high (len - 1) (omega arith) ∙ ==_refl (len - 1))
          (omega (arith, length-op_words));
  }
    where
      fit : AreU64 (op_words a b len count)
      fit =
          unfold op_words in
          copy_bits-AreU64 a (bit_len b) (bit_len a) 0 (right b len count) (
            copy_bits-AreU64 b 0 (bit_len b) 0 (top len count)
              (or_word-AreU64 (replicate count 0) (len - 1) (replicate-AreU64 count)))

  bit_len-op_words : bit_len (record { words = op_words a b len count }) ≡ len
  bit_len-op_words =
      let n = bit_len a + bit_len b in
      bit_len_of_top (record { words = op_words a b len count }) n op_words-IsCanonical
        (op_words_high n (omega arith) ∙ ground arith)
        (λ j h. op_words_high j (omega arith) ∙ ground arith)
      ∙ omega arith

  code-op_words : code (record { words = op_words a b len count }) ≡ true ∷ (code a ++ code b)
  unfolding bit
  code-op_words =
      let f = bit_at (op_words a b len count) in
      let e : len ≡ suc (bit_len a + bit_len b) = omega arith in
      ap (digits f) (bit_len-op_words ∙ e)
      ∙ unfold digits in
        ap₂ ◌∷◌ (op_words_high (bit_len a + bit_len b) (omega arith) ∙ ground arith) (
          digits-add f (bit_len a) (bit_len b)
          ∙ ap₂ ◌++◌ (digits_congr _ (bit a) (bit_len a) op_words_mid)
              (digits_congr f (bit b) (bit_len b) op_words_low))

-- With operands that stand for terms, and lengths whose sum `usize` can count, `op_with_limit` reports the
-- length needed and the limit when the limit is smaller, and otherwise returns the code of the
-- ordered application of the two terms, of exactly that length.
pub op_with_limit_lem :
    (a b : Bml) {t u : ClosedTerm} (max_bits : ℕ)
    → Represents a t
    → Represents b u
    → bit_len a + bit_len b + 64 < 2 ^ 64
    → (r : Bml) × (op_with_limit a b max_bits ≡ (
        if ltb max_bits (bit_len a + bit_len b + 1)
        then err (bit_limit (bit_len a + bit_len b + 1) max_bits)
        else ok r))
      × Represents r (Term.op t u)
      × (bit_len r ≡ bit_len a + bit_len b + 1)
unfolding op_with_limit checked_add
op_with_limit_lem a b max_bits ra rb small =
    let len = bit_len a + bit_len b + 1 in
    let count = (len + 63) / 64 in
    (
      record { words = op_words a b len count },
      rw (
        lt→ltb (bit_len a + bit_len b) (2 ^ 64) (omega arith),
        lt→ltb (bit_len a + bit_len b + 1) (2 ^ 64) (omega arith),
        lt→ltb (bit_len a + bit_len b + 1 + 63) (2 ^ 64) (omega arith),
      ),
      record {
        canonical = op_words-IsCanonical a b len count refl refl;
        code_is =
            code-op_words a b len count refl refl
            ∙ unfold encode in ap₂ (λ x y. true ∷ (x ++ y)) ra.code_is rb.code_is;
      },
      bit_len-op_words a b len count refl refl,
    )

-- Lengths whose sum `usize` cannot hold are an overflow, whatever the limit.
pub op_with_limit-overflow :
    (a b : Bml) (max_bits : ℕ)
    → 2 ^ 64 ≤ bit_len a + bit_len b + 1
    → op_with_limit a b max_bits ≡ err BuildError.size_overflow
unfolding op_with_limit checked_add
op_with_limit-overflow a b max_bits h = ground arith

pub one-Represents : Represents one Term.one
unfolding one bit_len get_last? digits encode bit
one-Represents = record { canonical = record { words_fit = tt; ends = tt }; code_is = refl }
