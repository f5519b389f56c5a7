-- ===== src/Number/Encoding/Bits.antt =====
-- The loops of crates/domain/src/number/encoding.rs that set bits, read bit by bit.
use bml.Prelude.{
  ℕ, zero, suc, ◌+◌, ◌*◌, ◌/◌, ◌%◌, ◌^◌, ◌≤◌, ◌<◌, ◌≡◌, ◌≢◌, refl, sym, ap, ap₂, ◌∙◌, true, false,
  ◌||◌, none, some, List, [], ◌∷◌, ◌++◌, ◌⊎◌, inl, inr, arith, ◌==◌, ==_iff, if◌then◌else◌,
  Bool-cases, length, get_elem?, get_or, set, replicate, length-set, get_or-set_self, get_or-set_ne,
}
use bml.Number.Words.{test_bit, or_bit, zero-test_bit, test_bit-or_bit, or_bit-lt}
use bml.Number.Encoding.{Bml, bit_at, bit, or_word, copy_bits, digits}

-- Every word fits a `u64`.
abbrev pub AreU64 : List ℕ → Type 0
AreU64 [] = Unit
AreU64 (w ∷ ws) = (w < 2 ^ 64) × AreU64 ws

pub bit_at-get_or : (ws : List ℕ) (i : ℕ) → bit_at ws i ≡ test_bit (get_or ws (i / 64) 0) (i % 64)
unfolding bit_at
bit_at-get_or ws i = go ws (i / 64) (i % 64)
  where
    go :
        (vs : List ℕ) (k j : ℕ)
        → (elim (get_elem? vs k) [ none ↦ false | some word ↦ test_bit word j ])
          ≡ test_bit (get_or vs k 0) j
    go [] k j = sym (zero-test_bit j)
    go (v ∷ vs) zero j = refl
    go (v ∷ vs) (suc k) j = go vs k j

pub length-or_word : (ws : List ℕ) (i : ℕ) → length (or_word ws i) ≡ length ws
unfolding or_word
length-or_word ws i = length-set ws (i / 64) (or_bit (get_or ws (i / 64) 0) (i % 64))

pub get_or-AreU64 : (ws : List ℕ) (i : ℕ) → AreU64 ws → get_or ws i 0 < 2 ^ 64
get_or-AreU64 [] i h = omega arith
get_or-AreU64 (w ∷ ws) zero h = h.0
get_or-AreU64 (w ∷ ws) (suc i) h = get_or-AreU64 ws i h.1

set-AreU64 : (ws : List ℕ) (i v : ℕ) → AreU64 ws → v < 2 ^ 64 → AreU64 (set ws i v)
set-AreU64 [] i v h l = tt
set-AreU64 (w ∷ ws) zero v h l = (l, h.1)
set-AreU64 (w ∷ ws) (suc i) v h l = (h.0, set-AreU64 ws i v h.1 l)

pub or_word-AreU64 : (ws : List ℕ) (i : ℕ) → AreU64 ws → AreU64 (or_word ws i)
unfolding or_word
or_word-AreU64 ws i h =
    set-AreU64 ws (i / 64) _ h
      (or_bit-lt 64 (get_or ws (i / 64) 0) (i % 64) (get_or-AreU64 ws (i / 64) h) (omega arith))

pub replicate-AreU64 : (n : ℕ) → AreU64 (replicate n 0)
replicate-AreU64 zero = tt
replicate-AreU64 (suc n) = (omega arith, replicate-AreU64 n)

-- Setting one bit changes that bit alone.
pub bit_at-or_word :
    (ws : List ℕ) (k j : ℕ)
    → k < 64 * length ws
    → bit_at (or_word ws k) j ≡ ((k == j) || bit_at ws j)
unfolding or_word
bit_at-or_word ws k j h = elim (Bool-cases (k / 64 == j / 64)) [
  | inl e ↦
      let q : k / 64 ≡ j / 64 = (==_iff (k / 64) (j / 64)).0 e in
      rw
        (
          bit_at-get_or,
          ← q,
          get_or-set_self ws (k / 64) (or_bit (get_or ws (k / 64) 0) (k % 64)) 0 (omega arith),
          test_bit-or_bit,
          bit_at-get_or,
          ← q,
        )
        (ap (λ b. b || test_bit (get_or ws (k / 64) 0) (j % 64)) (same q))
  | inr e ↦
      rw
        (
          bit_at-get_or,
          get_or-set_ne ws (k / 64) (j / 64) (or_bit (get_or ws (k / 64) 0) (k % 64)) 0 (other e),
          bit_at-get_or,
        )
        (ground arith)
]
  where
    same : k / 64 ≡ j / 64 → (k % 64 == j % 64) ≡ (k == j)
    same q = ground arith

    other : (k / 64 == j / 64) ≡ false → k / 64 ≢ j / 64
    other e = ground arith

pub length-copy_bits :
    (src : Bml) (shift n i : ℕ) (ws : List ℕ) → length (copy_bits src shift n i ws) ≡ length ws
unfolding copy_bits
length-copy_bits src shift zero i ws = refl
length-copy_bits src shift (suc n) i ws = elim (Bool-cases (bit src i)) [
  | inl e ↦ rw e (
      length-copy_bits src shift n (i + 1) (or_word ws (i + shift)) ∙ length-or_word ws (i + shift))
  | inr e ↦ rw e (length-copy_bits src shift n (i + 1) ws)
]

pub copy_bits-AreU64 :
    (src : Bml) (shift n i : ℕ) (ws : List ℕ) → AreU64 ws → AreU64 (copy_bits src shift n i ws)
unfolding copy_bits
copy_bits-AreU64 src shift zero i ws h = h
copy_bits-AreU64 src shift (suc n) i ws h = elim (Bool-cases (bit src i)) [
  | inl e ↦ rw e (copy_bits-AreU64 src shift n (i + 1) _ (or_word-AreU64 ws (i + shift) h))
  | inr e ↦ rw e (copy_bits-AreU64 src shift n (i + 1) ws h)
]

-- Outside of the copied range nothing changes.
pub bit_at-copy_bits_outside :
    (src : Bml) (shift n i j : ℕ) (ws : List ℕ)
    → i + n + shift ≤ 64 * length ws
    → (j < i + shift) ⊎ (i + n + shift ≤ j)
    → bit_at (copy_bits src shift n i ws) j ≡ bit_at ws j
unfolding copy_bits
bit_at-copy_bits_outside src shift zero i j ws h o = refl
bit_at-copy_bits_outside src shift (suc n) i j ws h o = elim (Bool-cases (bit src i)) [
  | inl e ↦ rw e (
      bit_at-copy_bits_outside src shift n (i + 1) j (or_word ws (i + shift))
        (omega (arith, length-or_word ws (i + shift))) (omega arith)
      ∙ ground (arith, bit_at-or_word ws (i + shift) j (omega arith)))
  | inr e ↦ rw e (bit_at-copy_bits_outside src shift n (i + 1) j ws (omega arith) (omega arith))
]

-- In the copied range the bits of the source are or-ed in.
pub bit_at-copy_bits_inside :
    (src : Bml) (shift n i k : ℕ) (ws : List ℕ)
    → i + n + shift ≤ 64 * length ws
    → i ≤ k
    → k < i + n
    → bit_at (copy_bits src shift n i ws) (k + shift) ≡ (bit src k || bit_at ws (k + shift))
unfolding copy_bits
bit_at-copy_bits_inside src shift zero i k ws h l m = absurd (omega arith)
bit_at-copy_bits_inside src shift (suc n) i k ws h l m = elim (Bool-cases (k == i)) [
  | inl e ↦
      let q : k ≡ i = (==_iff k i).0 e in
      rw q (
        bit_at-copy_bits_outside src shift n (i + 1) (i + shift) _ (room (Bool-cases (bit src i)))
          (inl (omega arith))
        ∙ here)
  | inr e ↦
      bit_at-copy_bits_inside src shift n (i + 1) k _ (room (Bool-cases (bit src i))) (ground arith)
        (omega arith)
      ∙ ap (λ b. bit src k || b) (there (ground arith))
]
  where
    after : List ℕ
    after = if bit src i then or_word ws (i + shift) else ws

    room : (bit src i ≡ true) ⊎ (bit src i ≡ false) → i + 1 + n + shift ≤ 64 * length after
    room (inl b) = rw b (omega (arith, length-or_word ws (i + shift)))
    room (inr b) = rw b (omega arith)

    here : bit_at after (i + shift) ≡ (bit src i || bit_at ws (i + shift))
    here = ground (arith, bit_at-or_word ws (i + shift) (i + shift) (omega arith))

    there : k ≢ i → bit_at after (k + shift) ≡ bit_at ws (k + shift)
    there ne = ground (arith, bit_at-or_word ws (i + shift) (k + shift) (omega arith))

module _ {ℓ} {A : Type ℓ} where
  pub digits_congr : (f g : ℕ → A) (n : ℕ) → ((i : ℕ) → i < n → f i ≡ g i) → digits f n ≡ digits g n
  unfolding digits
  digits_congr f g zero h = refl
  digits_congr f g (suc n) h =
      ap₂ ◌∷◌ (h n (omega arith)) (digits_congr f g n (λ i l. h i (omega arith)))

  pub digits-add :
      (f : ℕ → A) (m n : ℕ) → digits f (m + n) ≡ digits (λ i. f (i + n)) m ++ digits f n
  unfolding digits
  digits-add f zero n = let e : zero + n ≡ n = omega arith in rw e
  digits-add f (suc m) n =
      let e : suc m + n ≡ suc (m + n) = omega arith in
      rw e (ap (λ t. f (m + n) ∷ t) (digits-add f m n))

  pub length-digits : (f : ℕ → A) (n : ℕ) → length (digits f n) ≡ n
  unfolding digits
  length-digits f zero = refl
  length-digits f (suc n) = ap suc (length-digits f n)
