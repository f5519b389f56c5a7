-- ===== src/Number/Words.antt =====
-- Single bits of a `u64`, as crates/domain/src/number/encoding.rs reads and sets them.
use native.Mathlib.Nat.{pow-succ', div-div-eq-div-mul, div-eq_of_lt-le}
use bml.Prelude.{
  ℕ, zero, suc, ◌+◌, ◌-◌, ◌*◌, ◌/◌, ◌%◌, ◌^◌, ◌≤◌, ◌<◌, ◌≡◌, sym, ◌∙◌, Bool, true, false, ◌||◌, inl,
  inr, arith, ltb, ltb→lt, ltb→le, ◌==◌, if◌then◌else◌, Bool-cases,
}

-- `word & (1u64 << k) != 0`
unfoldable pub test_bit : ℕ → ℕ → Bool
test_bit w k = (w / 2 ^ k) % 2 == 1

-- `word | (1u64 << k)`
unfoldable pub or_bit : ℕ → ℕ → ℕ
or_bit w k = if test_bit w k then w else w + 2 ^ k

-- `word.leading_zeros()` of the `n` low bits of a word.
unfoldable pub leading_zeros : ℕ → ℕ → ℕ
leading_zeros zero w = 0
leading_zeros (suc n) w = let rest = leading_zeros n w in if test_bit w n then 0 else suc rest

pub test_bit_first : (w : ℕ) → test_bit w 0 ≡ (w % 2 == 1)
unfolding test_bit
test_bit_first w = ground arith

pub test_bit-suc : (w k : ℕ) → test_bit w (suc k) ≡ test_bit (w / 2) k
unfolding test_bit
test_bit-suc w k = rw (pow-succ' 2 k, ← div-div-eq-div-mul w 2 (2 ^ k))

pub zero-test_bit : (k : ℕ) → test_bit 0 k ≡ false
zero-test_bit zero = test_bit_first 0
zero-test_bit (suc k) = test_bit-suc 0 k ∙ zero-test_bit k

or_bit-suc : (w k : ℕ) → or_bit w (suc k) ≡ 2 * or_bit (w / 2) k + w % 2
unfolding or_bit
or_bit-suc w k = ground (arith, test_bit-suc w k, pow-succ' 2 k)

or_bit_first : (w : ℕ) → or_bit w 0 ≡ w / 2 * 2 + 1
unfolding or_bit
or_bit_first w = ground (arith, test_bit_first w)

pub test_bit-or_bit : (w k j : ℕ) → test_bit (or_bit w k) j ≡ ((k == j) || test_bit w j)
test_bit-or_bit w zero zero = rw (test_bit_first, or_bit_first) (ground arith)
test_bit-or_bit w zero (suc j) =
    let e : (w / 2 * 2 + 1) / 2 ≡ w / 2 = omega arith in
    rw (test_bit-suc, or_bit_first, test_bit-suc, e) (ground arith)
test_bit-or_bit w (suc k) zero =
    let e : (2 * or_bit (w / 2) k + w % 2) % 2 ≡ w % 2 = omega arith in
    rw (test_bit_first, or_bit-suc, test_bit_first, e) (ground arith)
test_bit-or_bit w (suc k) (suc j) =
    let e : (2 * or_bit (w / 2) k + w % 2) / 2 ≡ or_bit (w / 2) k = omega arith in
    rw (test_bit-suc, or_bit-suc, test_bit-suc, e, test_bit-or_bit (w / 2) k j) (ground arith)

pub or_bit-lt : (n w k : ℕ) → w < 2 ^ n → k < n → or_bit w k < 2 ^ n
or_bit-lt zero w k h l = absurd (omega arith)
or_bit-lt (suc n) w zero h l = omega (arith, or_bit_first w, pow-succ' 2 n)
or_bit-lt (suc n) w (suc k) h l = omega (
  arith,
  or_bit-suc w k,
  pow-succ' 2 n,
  or_bit-lt n (w / 2) k (omega (arith, pow-succ' 2 n)) (omega arith),
)

-- Bits above the width of a word are clear.
pub test_bit_of_lt : (n w k : ℕ) → w < 2 ^ n → n ≤ k → test_bit w k ≡ false
test_bit_of_lt zero w k h l = let e : w ≡ 0 = omega arith in rw e (zero-test_bit k)
test_bit_of_lt (suc n) w zero h l = absurd (omega arith)
test_bit_of_lt (suc n) w (suc k) h l =
    test_bit-suc w k ∙ test_bit_of_lt n (w / 2) k (omega (arith, pow-succ' 2 n)) (omega arith)

-- A word is determined by its bits.
pub eq_of_test_bit :
    (n w v : ℕ) → w < 2 ^ n → v < 2 ^ n → ((j : ℕ) → j < n → test_bit w j ≡ test_bit v j) → w ≡ v
eq_of_test_bit zero w v h l e = omega arith
eq_of_test_bit (suc n) w v h l e = omega (
  arith,
  eq_of_test_bit n (w / 2) (v / 2) (omega (arith, pow-succ' 2 n)) (omega (arith, pow-succ' 2 n))
      (λ j lt. sym (test_bit-suc w j) ∙ e (suc j) (omega arith) ∙ test_bit-suc v j),
  low,
)
  where
    low : w % 2 ≡ v % 2
    low = ground (arith, test_bit_first w, test_bit_first v, e 0 (omega arith))

pub leading_zeros-le : (n w : ℕ) → leading_zeros n w ≤ n
unfolding leading_zeros
leading_zeros-le zero w = omega arith
leading_zeros-le (suc n) w = ground (arith, leading_zeros-le n w)

-- The bits above the highest set one are clear.
pub leading_zeros_above : (n w j : ℕ) → j < n → n - leading_zeros n w ≤ j → test_bit w j ≡ false
unfolding leading_zeros
leading_zeros_above zero w j h l = absurd (omega arith)
leading_zeros_above (suc n) w j h l = elim (Bool-cases (test_bit w n)) [
  | inl t ↦ absurd (ground arith)
  | inr f ↦ elim (Bool-cases (j == n)) [
    | inl e ↦ ground arith
    | inr e ↦ leading_zeros_above n w j (ground arith) (ground (arith, leading_zeros-le n w))
  ]
]

below_of_clear : (n w : ℕ) → w < 2 ^ suc n → test_bit w n ≡ false → w < 2 ^ n
unfolding test_bit
below_of_clear n w l f = elim (Bool-cases (ltb w (2 ^ n))) [
  | inl t ↦ ltb→lt w (2 ^ n) t
  | inr t ↦
      let e : w / 2 ^ n ≡ 1 =
        div-eq_of_lt-le (2 ^ n) (omega (arith, ltb→le w (2 ^ n) t))
          (omega (arith, pow-succ' 2 n)) in
      absurd (ground arith)
]

-- A nonzero word has a highest set bit.
pub leading_zeros_top :
    (n w : ℕ)
    → 0 < w
    → w < 2 ^ n
    → (leading_zeros n w < n) × (test_bit w (n - leading_zeros n w - 1) ≡ true)
unfolding leading_zeros
leading_zeros_top zero w h l = absurd (omega arith)
leading_zeros_top (suc n) w h l = elim (Bool-cases (test_bit w n)) [
  | inl t ↦ rw t (omega arith, let e : suc n - 0 - 1 ≡ n = omega arith in rw e t)
  | inr f ↦ rw f (
    omega (arith, (leading_zeros_top n w h (below_of_clear n w l f)).0),
    let e : suc n - suc (leading_zeros n w) - 1 ≡ n - leading_zeros n w - 1 = omega arith in
        rw e (leading_zeros_top n w h (below_of_clear n w l f)).1,
  )
]

-- `&` of words of a number of bits.
unfoldable pub bit_and : ℕ → ℕ → ℕ → ℕ
bit_and zero a b = 0
bit_and (suc n) a b = a % 2 * (b % 2) + 2 * bit_and n (a / 2) (b / 2)
