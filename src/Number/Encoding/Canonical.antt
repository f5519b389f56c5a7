-- ===== src/Number/Encoding/Canonical.antt =====
-- Canonical words, without a high zero word, and their length in bits, `Bml::bit_len` of
-- crates/domain/src/number/encoding.rs.
use bml.Prelude.{
  ℕ, suc, ◌+◌, ◌-◌, ◌*◌, ◌/◌, ◌%◌, ◌^◌, ◌≤◌, ◌<◌, ◌≡◌, refl, ap, ap₂, ◌∙◌, true, false, some, List,
  [], ◌∷◌, inl, inr, arith, ltb, ltb→lt, ltb→le, Bool-cases, length, get_or, get_or_of_ge,
}
use bml.Number.Words.{
  test_bit, leading_zeros, leading_zeros-le, leading_zeros_above, leading_zeros_top, zero-test_bit,
}
use bml.Number.Encoding.{Bml, bit_at, bit_len, get_last?}
use bml.Number.Encoding.Bits.{AreU64, bit_at-get_or}

-- The last word, if there is one, is not zero.
abbrev pub EndsNonzero : List ℕ → Type 0
EndsNonzero [] = Unit
EndsNonzero (w ∷ []) = 0 < w
EndsNonzero (w ∷ v ∷ ws) = EndsNonzero (v ∷ ws)

pub record IsCanonical (b : Bml) : Type 0 where
  pub words_fit : AreU64 b.words
  pub ends : EndsNonzero b.words

-- The last word by its index.
pub get_last?-cons :
    (w : ℕ) (ws : List ℕ) → get_last? (w ∷ ws) ≡ some (get_or (w ∷ ws) (length ws) 0)
unfolding get_last?
get_last?-cons w [] = refl
get_last?-cons w (v ∷ ws) = get_last?-cons v ws

last-pos : (w : ℕ) (ws : List ℕ) → EndsNonzero (w ∷ ws) → 0 < get_or (w ∷ ws) (length ws) 0
last-pos w [] h = h
last-pos w (v ∷ ws) h = last-pos v ws h

last-lt : (w : ℕ) (ws : List ℕ) → AreU64 (w ∷ ws) → get_or (w ∷ ws) (length ws) 0 < 2 ^ 64
last-lt w [] h = h.0
last-lt w (v ∷ ws) h = last-lt v ws h.1

pub bit_len-nil : bit_len (record { words = [] }) ≡ 1
unfolding bit_len get_last?
bit_len-nil = refl

bit_len-cons :
    (w : ℕ) (ws : List ℕ)
    → bit_len (record { words = w ∷ ws })
      ≡ length ws * 64 + (64 - leading_zeros 64 (get_or (w ∷ ws) (length ws) 0))
unfolding bit_len
bit_len-cons w ws = rw (get_last?-cons, bit_len) (omega arith)

-- The highest bit of a term with words is set, within the last word.
pub bit_len_top :
    (w : ℕ) (ws : List ℕ)
    → AreU64 (w ∷ ws)
    → EndsNonzero (w ∷ ws)
    → let n = bit_len (record { words = w ∷ ws }) in
      (length ws * 64 < n) × (n ≤ length ws * 64 + 64) × (bit_at (w ∷ ws) (n - 1) ≡ true)
bit_len_top w ws fit ends =
    let lz = leading_zeros 64 (get_or (w ∷ ws) (length ws) 0) in
    let top = leading_zeros_top 64 _ (last-pos w ws ends) (last-lt w ws fit) in
    rw bit_len-cons (
      omega (arith, top.0),
      omega (arith, top.0),
      let q : (length ws * 64 + (64 - lz) - 1) / 64 ≡ length ws = omega (arith, top.0) in
          let r : (length ws * 64 + (64 - lz) - 1) % 64 ≡ 64 - lz - 1 = omega (arith, top.0) in
          bit_at-get_or (w ∷ ws) (length ws * 64 + (64 - lz) - 1)
          ∙ ap₂ (λ i j. test_bit (get_or (w ∷ ws) i 0) j) q r
          ∙ top.1,
    )

-- From the length on, the bits are clear.
pub bit_len_above : (b : Bml) (j : ℕ) → AreU64 b.words → bit_len b ≤ j → bit_at b.words j ≡ false
bit_len_above b j fit h = go b.words fit h
  where
    go : (ws : List ℕ) → AreU64 ws → bit_len (record { words = ws }) ≤ j → bit_at ws j ≡ false
    go [] f l = bit_at-get_or [] j ∙ zero-test_bit (j % 64)
    go (w ∷ ws) f l = elim (Bool-cases (ltb (length ws) (j / 64))) [
      | inl t ↦
          bit_at-get_or (w ∷ ws) j
          ∙ ap (λ v. test_bit v (j % 64))
              (get_or_of_ge (w ∷ ws) (j / 64) 0 (omega (arith, ltb→lt (length ws) (j / 64) t)))
          ∙ zero-test_bit (j % 64)
      | inr t ↦
          let l' = rw bit_len-cons at l in
          let le = ltb→le (length ws) (j / 64) t in
          let lz-le = leading_zeros-le 64 (get_or (w ∷ ws) (length ws) 0) in
          let q : j / 64 ≡ length ws = omega (arith, l', le, lz-le) in
          bit_at-get_or (w ∷ ws) j
          ∙ ap (λ i. test_bit (get_or (w ∷ ws) i 0) (j % 64)) q
          ∙ leading_zeros_above 64 (get_or (w ∷ ws) (length ws) 0) (j % 64) (omega arith)
              (omega (arith, l', q, lz-le))
    ]

pub bit_len-pos : (b : Bml) → IsCanonical b → 0 < bit_len b
bit_len-pos b c = go b.words c.words_fit c.ends
  where
    go : (ws : List ℕ) → AreU64 ws → EndsNonzero ws → 0 < bit_len (record { words = ws })
    go [] f e = rw bit_len-nil (omega arith)
    go (w ∷ ws) f e = omega (arith, (bit_len_top w ws f e).0)

squeeze :
    (ws : List ℕ) (m n : ℕ)
    → 0 < m
    → bit_at ws (m - 1) ≡ true
    → (m ≤ n → bit_at ws n ≡ false)
    → bit_at ws n ≡ true
    → (n < m - 1 → bit_at ws (m - 1) ≡ false)
    → m ≡ suc n
squeeze ws m n p top up t above = elim (Bool-cases (ltb n m)) [
  | inr e ↦ absurd (grind (arith, up (ltb→le n m e)))
  | inl e ↦ elim (Bool-cases (ltb n (m - 1))) [
    | inl l ↦ absurd (grind (arith, above (ltb→lt n (m - 1) l)))
    | inr l ↦ omega (arith, ltb→le n (m - 1) l, ltb→lt n m e)
  ]
]

-- The length is fixed by the highest set bit.
pub bit_len_of_top :
    (b : Bml) (n : ℕ)
    → IsCanonical b
    → bit_at b.words n ≡ true
    → ((j : ℕ) → n < j → bit_at b.words j ≡ false)
    → bit_len b ≡ suc n
bit_len_of_top b n c t above = go b.words c.words_fit c.ends t above
  where
    go :
        (ws : List ℕ)
        → AreU64 ws
        → EndsNonzero ws
        → bit_at ws n ≡ true
        → ((j : ℕ) → n < j → bit_at ws j ≡ false)
        → bit_len (record { words = ws }) ≡ suc n
    go [] f e t' a = let off = bit_at-get_or [] n ∙ zero-test_bit (n % 64) in cc
    go (w ∷ ws) f e t' a =
        let top = bit_len_top w ws f e in
        squeeze (w ∷ ws) (bit_len (record { words = w ∷ ws })) n (omega (arith, top.0)) (top.2)
          (bit_len_above (record { words = w ∷ ws }) n f) t' (a _)
