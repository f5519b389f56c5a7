-- ===== src/Number/Encoding/Digits.antt =====
-- The loop of `Bml::from_binary` over the reversed text, read bit by bit.
use mathlib.Core.List.{reverse, reverse-cons}
use bml.Prelude.{
  ℕ, zero, suc, ◌+◌, ◌-◌, ◌*◌, ◌≤◌, ◌<◌, ◌≡◌, refl, sym, ap, ap₂, ◌∙◌, ◌&&◌, ◌||◌, List, [], ◌∷◌,
  ◌++◌, inl, inr, arith, ltb, leb, ltb→lt, ◌==◌, ==_iff, if◌then◌else◌, Bool-cases, length, get_or,
  length-append,
}
use bml.Number.Encoding.{bit_at, or_word, set_digits, digits}
use bml.Number.Encoding.Bits.{
  AreU64, or_word-AreU64, length-or_word, bit_at-or_word, digits_congr, length-digits,
}

module _ {ℓ} {A : Type ℓ} where
  get_or-append_left :
      (xs ys : List A) (i : ℕ) (d : A) → i < length xs → get_or (xs ++ ys) i d ≡ get_or xs i d
  get_or-append_left [] ys i d h = absurd (omega arith)
  get_or-append_left (x ∷ xs) ys zero d h = refl
  get_or-append_left (x ∷ xs) ys (suc i) d h = get_or-append_left xs ys i d (omega arith)

  get_or-append_end : (xs : List A) (y d : A) → get_or (xs ++ y ∷ []) (length xs) d ≡ y
  get_or-append_end [] y d = refl
  get_or-append_end (x ∷ xs) y d = get_or-append_end xs y d

  pub length-reverse : (xs : List A) → length (reverse xs) ≡ length xs
  length-reverse [] = refl
  length-reverse (x ∷ xs) =
      ap length (reverse-cons x xs)
      ∙ omega (arith, length-append (reverse xs) (x ∷ []), length-reverse xs)

  -- A list read from the end of its reverse.
  pub digits-reverse :
      (xs : List A) (d : A) → digits (λ j. get_or (reverse xs) j d) (length xs) ≡ xs
  unfolding digits
  digits-reverse [] d = refl
  digits-reverse (x ∷ xs) d =
      ap (λ r. digits (λ j. get_or r j d) (suc (length xs))) (reverse-cons x xs)
      ∙ (ap₂ ◌∷◌
          (ap (λ n. get_or (reverse xs ++ x ∷ []) n d) (sym (length-reverse xs))
            ∙ get_or-append_end (reverse xs) x d)
          (digits_congr _ (λ j. get_or (reverse xs) j d) (length xs)
              (λ j h.
                get_or-append_left (reverse xs) (x ∷ []) j d (omega (arith, length-reverse xs)))
            ∙ digits-reverse xs d))

  pub get_or-reverse-digits :
      (f : ℕ → A) (n j : ℕ) (d : A) → j < n → get_or (reverse (digits f n)) j d ≡ f j
  unfolding digits
  get_or-reverse-digits f zero j d h = absurd (omega arith)
  get_or-reverse-digits f (suc n) j d h =
      let len = length-reverse (digits f n) ∙ length-digits f n in
      ap (λ r. get_or r j d) (reverse-cons (f n) (digits f n)) ∙ elim (Bool-cases (j == n)) [
        | inl e ↦
            ap (λ k. get_or (reverse (digits f n) ++ f n ∷ []) k d) ((==_iff j n).0 e ∙ sym len)
            ∙ get_or-append_end (reverse (digits f n)) (f n) d
            ∙ ap f (sym ((==_iff j n).0 e))
        | inr e ↦
            get_or-append_left (reverse (digits f n)) (f n ∷ []) j d (ground (arith, len))
            ∙ get_or-reverse-digits f n j d (ground arith)
      ]

pub length-set_digits :
    (bs : List ℕ) (i : ℕ) (ws : List ℕ) → length (set_digits bs i ws) ≡ length ws
unfolding set_digits
length-set_digits [] i ws = refl
length-set_digits (b ∷ bs) i ws = ground (
  arith,
  length-set_digits bs (i + 1) (if b == b'1' then or_word ws i else ws),
  length-or_word ws i,
)

pub set_digits-AreU64 :
    (bs : List ℕ) (i : ℕ) (ws : List ℕ) → AreU64 ws → AreU64 (set_digits bs i ws)
unfolding set_digits
set_digits-AreU64 [] i ws h = h
set_digits-AreU64 (b ∷ bs) i ws h = elim (Bool-cases (b == b'1')) [
  | inl e ↦ rw e (set_digits-AreU64 bs (i + 1) _ (or_word-AreU64 ws i h))
  | inr e ↦ rw e (set_digits-AreU64 bs (i + 1) ws h)
]

-- The bits that the loop sets are those of the text.
pub set_digits_lem :
    (bs : List ℕ) (i j : ℕ) (ws : List ℕ)
    → i + length bs ≤ 64 * length ws
    → bit_at (set_digits bs i ws) j ≡ ((leb i j && get_or bs (j - i) 0 == b'1') || bit_at ws j)
unfolding set_digits
set_digits_lem [] i j ws h = ground arith
set_digits_lem (b ∷ bs) i j ws h =
    set_digits_lem bs (i + 1) j after (omega (arith, length-after))
    ∙ ap (λ c. (leb (i + 1) j && get_or bs (j - (i + 1)) 0 == b'1') || c) bit_at-after
    ∙ elim (Bool-cases (ltb i j)) [
      | inl l ↦
          let e : j - i ≡ suc (j - (i + 1)) = omega (arith, ltb→lt i j l) in rw e (ground arith)
      | inr l ↦ elim (Bool-cases (i == j)) [
        | inl q ↦ let e : j - i ≡ 0 = ground arith in rw e (ground arith)
        | inr q ↦ ground arith
      ]
    ]
  where
    after : List ℕ
    after = if b == b'1' then or_word ws i else ws

    length-after : length after ≡ length ws
    length-after = ground (arith, length-or_word ws i)

    bit_at-after : bit_at after j ≡ ((b == b'1' && i == j) || bit_at ws j)
    bit_at-after = ground (arith, bit_at-or_word ws i j (omega arith))
