-- ===== src/Number/Encoding/Trim.antt =====
-- The words that `Bml::from_words_le` of crates/domain/src/number/encoding.rs keeps.
use bml.Prelude.{
  ℕ, zero, suc, ◌+◌, ◌-◌, ◌*◌, ◌/◌, ◌%◌, ◌^◌, ◌≤◌, ◌<◌, ◌≡◌, refl, sym, ap, ap₂, ◌∙◌, Bool, true,
  false, not, Option, none, some, List, [], ◌∷◌, inl, inr, arith, ltb, ltb→lt, ltb→le, ◌==◌, ==_iff,
  Bool-cases, Option-cases, length, get_or, take, get_or_of_ge,
}
use bml.Number.Words.{test_bit, zero-test_bit, eq_of_test_bit}
use bml.Number.Encoding.{Bml, bit_at, bit_len, rposition}
use bml.Number.Encoding.Bits.{AreU64, bit_at-get_or, get_or-AreU64}
use bml.Number.Encoding.Canonical.{EndsNonzero, IsCanonical, bit_len_top}

-- The words that `from_words_le` keeps.
abbrev pub kept : Option ℕ → ℕ
kept none = 0
kept (some i) = suc i

abbrev pub nonzero : ℕ → Bool
nonzero word = not (word == 0)

abbrev pub trim : List ℕ → List ℕ
trim ws = take (kept (rposition nonzero ws)) ws

-- What trimming `ws` to `vs` keeps.
pub record Trims (vs ws : List ℕ) : Type 0 where
  pub fit : AreU64 vs
  pub ends : EndsNonzero vs
  pub same : (k : ℕ) → get_or vs k 0 ≡ get_or ws k 0

Trims-more :
    (w : ℕ) (ws : List ℕ) (i : ℕ)
    → w < 2 ^ 64
    → i < length ws
    → Trims (take (suc i) ws) ws
    → Trims (w ∷ take (suc i) ws) (w ∷ ws)
Trims-more w [] i h l t = absurd (omega arith)
Trims-more w (v ∷ vs) i h l t = record {
  fit = (h, t.fit);
  ends = t.ends;
  same = λ k. elim k as (λ j. get_or (w ∷ take (suc i) (v ∷ vs)) j 0 ≡ get_or (w ∷ v ∷ vs) j 0) [
    | zero ↦ refl
    | suc j ↦ t.same j
  ];
}

Trims-last : (w : ℕ) (ws : List ℕ) → w < 2 ^ 64 → 0 < w → Trims [] ws → Trims (w ∷ []) (w ∷ ws)
Trims-last w ws h p t = record {
  fit = (h, tt);
  ends = p;
  same = λ k. elim k as (λ j. get_or (w ∷ []) j 0 ≡ get_or (w ∷ ws) j 0) [
    | zero ↦ refl
    | suc j ↦ t.same j
  ];
}

Trims-none : (w : ℕ) (ws : List ℕ) → w ≡ 0 → Trims [] ws → Trims [] (w ∷ ws)
Trims-none w ws p t = record {
  fit = tt;
  ends = tt;
  same = λ k. elim k as (λ j. 0 ≡ get_or (w ∷ ws) j 0) [ zero ↦ sym p | suc j ↦ t.same j ];
}

rposition-lt : (p : ℕ → Bool) (ws : List ℕ) (i : ℕ) → rposition p ws ≡ some i → i < length ws
unfolding rposition
rposition-lt p [] i h = cc
rposition-lt p (w ∷ ws) i h = elim (Option-cases (rposition p ws)) [
  | inl e ↦ ground arith
  | inr (j, e) ↦ ground (arith, rposition-lt p ws j e)
]

-- `from_words_le` drops exactly the high zero words.
pub trim-Trims : (ws : List ℕ) → AreU64 ws → Trims (trim ws) ws
unfolding rposition
trim-Trims [] h = record { fit = tt; ends = tt; same = λ k. refl }
trim-Trims (w ∷ ws) (h, hs) = elim (Option-cases (rposition nonzero ws)) [
  | inr (i, e) ↦
      let ih = rw e at (trim-Trims ws hs) in
      rw e (Trims-more w ws i h (rposition-lt nonzero ws i e) ih)
  | inl e ↦
      let ih = rw e at (trim-Trims ws hs) in
      elim (Bool-cases (w == 0)) [
        | inl z ↦ rw (e, z) (Trims-none w ws ((==_iff w 0).0 z) ih)
        | inr z ↦ rw (e, z) (Trims-last w ws h (ground arith) ih)
      ]
]

list_ext :
    (vs ws : List ℕ) → length vs ≡ length ws → ((k : ℕ) → get_or vs k 0 ≡ get_or ws k 0) → vs ≡ ws
list_ext [] [] n h = refl
list_ext [] (w ∷ ws) n h = absurd (omega arith)
list_ext (v ∷ vs) [] n h = absurd (omega arith)
list_ext (v ∷ vs) (w ∷ ws) n h = ap₂ ◌∷◌ (h 0) (list_ext vs ws (omega arith) (λ k. h (suc k)))

words_of_bits :
    (vs ws : List ℕ)
    → AreU64 vs
    → AreU64 ws
    → ((j : ℕ) → bit_at vs j ≡ bit_at ws j)
    → (k : ℕ) → get_or vs k 0 ≡ get_or ws k 0
words_of_bits vs ws f g h k =
    eq_of_test_bit 64 (get_or vs k 0) (get_or ws k 0) (get_or-AreU64 vs k f) (get_or-AreU64 ws k g)
      λ j l.
        let q : (k * 64 + j) / 64 ≡ k = omega arith in
        let r : (k * 64 + j) % 64 ≡ j = omega arith in
        sym (bit_at-get_or vs (k * 64 + j) ∙ ap₂ (λ a b. test_bit (get_or vs a 0) b) q r)
        ∙ h (k * 64 + j)
        ∙ bit_at-get_or ws (k * 64 + j)
        ∙ ap₂ (λ a b. test_bit (get_or ws a 0) b) q r

-- Nothing set above the last word of the other.
shorter :
    (vs ws : List ℕ)
    → AreU64 vs
    → EndsNonzero vs
    → ((j : ℕ) → bit_at vs j ≡ bit_at ws j)
    → length vs ≤ length ws
shorter [] ws f e h = omega arith
shorter (v ∷ vs) ws f e h = elim (Bool-cases (ltb (length vs) (length ws))) [
  | inl t ↦ ltb→lt (length vs) (length ws) t
  | inr t ↦
      let n = bit_len (record { words = v ∷ vs }) in
      let top = bit_len_top v vs f e in
      let le = ltb→le (length vs) (length ws) t in
      let off : bit_at ws (n - 1) ≡ false =
        bit_at-get_or ws (n - 1)
        ∙ ap (λ x. test_bit x ((n - 1) % 64))
            (get_or_of_ge ws ((n - 1) / 64) 0 (omega (arith, top.0, top.1, le)))
        ∙ zero-test_bit ((n - 1) % 64) in
      absurd (clash (sym off ∙ sym (h (n - 1)) ∙ top.2))
]
  where
    clash : false ≡ true → ⊥
    clash p = cc

-- Two terms in canonical words, of 64 bits each and without a zero word at the end, are equal when
-- all their bits are.
pub canonical_ext :
    (a b : Bml)
    → IsCanonical a
    → IsCanonical b
    → ((j : ℕ) → bit_at a.words j ≡ bit_at b.words j)
    → a ≡ b
canonical_ext a b ca cb h = λ i. record { words = words_eq i }
  where
    words_eq : a.words ≡ b.words
    words_eq =
        list_ext a.words b.words
          (omega (
            arith,
            shorter a.words b.words ca.words_fit ca.ends h,
            shorter b.words a.words cb.words_fit cb.ends (λ j. sym (h j)),
          ))
          (words_of_bits a.words b.words ca.words_fit cb.words_fit h)
