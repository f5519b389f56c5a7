-- ===== src/Number/Encoding/Import.antt =====
-- `Bml::from_words_le` of crates/domain/src/number/encoding.rs: the words that it accepts.
use bml.Prelude.{
  ℕ, ◌/◌, ◌%◌, ◌≡◌, refl, sym, ap, ◌∙◌, subst, List, inl, inr, Option-cases, ok, ◌>>◌, >>-eq-ok,
}
use bml.Symbolic.Term.{ClosedTerm}
use bml.Number.Words.{test_bit}
use bml.Number.Encoding.{Bml, bit_at, rposition, validate, from_words_le}
use bml.Number.Encoding.Bits.{AreU64, bit_at-get_or}
use bml.Number.Encoding.Canonical.{IsCanonical}
use bml.Number.Encoding.Validate.{IsAddressable, validate-ok_iff}
use bml.Number.Encoding.Op.{Represents}
use bml.Number.Encoding.Trim.{trim, nonzero, trim-Trims, canonical_ext}

abbrev pub trimmed : List ℕ → Bml
trimmed ws = record { words = trim ws }

pub trimmed-IsCanonical : (ws : List ℕ) → AreU64 ws → IsCanonical (trimmed ws)
trimmed-IsCanonical ws h = record {
  words_fit = (trim-Trims ws h).fit;
  ends = (trim-Trims ws h).ends;
}

pub bit_at-trimmed : (ws : List ℕ) → AreU64 ws → (j : ℕ) → bit_at (trim ws) j ≡ bit_at ws j
bit_at-trimmed ws h j =
    bit_at-get_or (trim ws) j
    ∙ ap (λ v. test_bit v (j % 64)) ((trim-Trims ws h).same (j / 64))
    ∙ sym (bit_at-get_or ws j)

pub from_words_le_lem :
    (ws : List ℕ) → from_words_le ws ≡ (validate (trimmed ws) >> ok (trimmed ws))
unfolding from_words_le
from_words_le_lem ws = elim (Option-cases (rposition nonzero ws)) [
  | inl e ↦ rw e
  | inr (i, e) ↦ rw e
]

-- An accepted import of words of 64 bits, of a length that `usize` can count without the high zero
-- words, stands for a closed term, in canonical words with the bits of the input.
pub from_words_le-Represents :
    (ws : List ℕ) (b : Bml)
    → AreU64 ws
    → IsAddressable (trimmed ws)
    → from_words_le ws ≡ ok b
    → ((t : ClosedTerm) × Represents b t) × ((j : ℕ) → bit_at b.words j ≡ bit_at ws j)
from_words_le-Represents ws b h small e =
    let (v, r) = >>-eq-ok (validate (trimmed ws)) _ (sym (from_words_le_lem ws) ∙ e) in
    let (t, c) = (validate-ok_iff (trimmed ws) small).0 (v) in
    let same : trimmed ws ≡ b = cc in
    (
      (
        t,
        subst (λ x. Represents x t) same
            (record { canonical = trimmed-IsCanonical ws h; code_is = c }),
      ),
      λ j. sym (ap (λ x. bit_at x.words j) same) ∙ bit_at-trimmed ws h j,
    )

-- Words with the bits of a represented term are imported as that term.
pub from_words_le_of_bits :
    (ws : List ℕ) (b : Bml) {t : ClosedTerm}
    → AreU64 ws
    → Represents b t
    → IsAddressable b
    → ((j : ℕ) → bit_at ws j ≡ bit_at b.words j)
    → from_words_le ws ≡ ok b
from_words_le_of_bits ws b {t} h r small same =
    let e : trimmed ws ≡ b =
      canonical_ext (trimmed ws) b (trimmed-IsCanonical ws h) r.canonical
        (λ j. bit_at-trimmed ws h j ∙ same j) in
    let v : validate b ≡ ok tt = (validate-ok_iff b small).1 (t, r.code_is) in
    from_words_le_lem ws ∙ ap (λ x. validate x >> ok x) e ∙ ap (λ x. x >> ok b) v

-- Importing the words of a term, of a length that `usize` can count, gives the term back.
pub from_words_le-words :
    (b : Bml) {t : ClosedTerm} → Represents b t → IsAddressable b → from_words_le b.words ≡ ok b
from_words_le-words b r small =
    from_words_le_of_bits b.words b r.canonical.words_fit r small (λ j. refl)
