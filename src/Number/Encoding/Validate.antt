-- ===== src/Number/Encoding/Validate.antt =====
-- `Bml::validate` of crates/domain/src/number/encoding.rs beside the prefix code of closed terms.
use bml.Prelude.{
  ℕ, zero, suc, ◌+◌, ◌-◌, ◌^◌, ◌<◌, ◌≡◌, refl, sym, ap, ◌∙◌, Bool, List, [], ◌∷◌, ◌++◌, append-nil,
  ◌⊎◌, inl, inr, ◌↔◌, arith, lt→ltb, Bool-cases, length, ok, err,
}
use bml.Symbolic.Term.{ClosedTerm}
use bml.Number.Prefix.{encode, encode_all, check}
use bml.Number.Prefix.Check.{
  check-encode, check-encode_append, check-ok, check-trailing, check_total,
}
use bml.Number.Encoding.{
  truncated, trailing_bits, Bml, bit, bit_len, validate, validate_from, checked_add, digits,
}

-- The bits of the encoding, the most significant first.
abbrev pub code : Bml → List Bool
code b = digits (bit b) (bit_len b)

-- The count of open slots cannot reach the limit of `usize`.
abbrev pub IsAddressable : Bml → Type 0
IsAddressable b = bit_len b + 64 < 2 ^ 64

validate_from-check :
    (b : Bml) (n s : ℕ) → s + n < 2 ^ 64 → validate_from b n s ≡ check (digits (bit b) n) s
unfolding validate_from check digits checked_add
validate_from-check b zero zero h = refl
validate_from-check b zero (suc s) h = ground arith
validate_from-check b (suc n) zero h = refl
validate_from-check b (suc n) (suc s) h = elim (Bool-cases (bit b n)) [
  | inl e ↦
      let d : suc s - 1 ≡ s = omega arith in
      rw (e, d, lt→ltb (s + 2) (2 ^ 64) (omega arith))
        (ground (arith, validate_from-check b n (s + 2) (omega arith)))
  | inr e ↦
      let d : suc s - 1 ≡ s = omega arith in
      rw (e, d) (ground (arith, validate_from-check b n s (omega arith)))
]

pub validate-check : (b : Bml) → IsAddressable b → validate b ≡ check (code b) 1
unfolding validate
validate-check b h = validate_from-check b (bit_len b) 1 (omega arith)

-- Under the size bound, `validate` accepts a term exactly when its bits are the prefix code of
-- some closed term.
pub validate-ok_iff :
    (b : Bml) → IsAddressable b → (validate b ≡ ok tt) ↔ ((t : ClosedTerm) × (code b ≡ encode t))
validate-ok_iff b h = (
  λ e. single (code b) (check-ok (code b) 1 (sym (validate-check b h) ∙ e)),
  λ p. validate-check b h ∙ ap (λ bs. check bs 1) p.1 ∙ check-encode p.0,
)
  where
    single :
        (bs : List Bool)
        → (ts : List ClosedTerm) × (length ts ≡ 1) × (bs ≡ encode_all ts)
        → (t : ClosedTerm) × (bs ≡ encode t)
    single bs ([], n, e) = absurd (omega arith)
    single bs (t ∷ [], n, e) = (t, e ∙ unfold encode_all in append-nil (encode t))
    single bs (t ∷ u ∷ ts, n, e) = absurd (omega arith)

-- Under the size bound, `validate` answers `TrailingBits` exactly when the bits go on after the code of a term.
pub validate-trailing_iff :
    (b : Bml)
    → IsAddressable b
    → (validate b ≡ err trailing_bits)
      ↔ ((t : ClosedTerm) × (d : Bool) × (rest : List Bool) × (code b ≡ encode t ++ d ∷ rest))
validate-trailing_iff b h = (
  λ e. single (code b) (check-trailing (code b) 1 (sym (validate-check b h) ∙ e)),
  λ p.
      validate-check b h
      ∙ ap (λ bs. check bs 1) p.3
      ∙ check-encode_append p.0 (p.1 ∷ p.2) 0
      ∙ unfold check in refl,
)
  where
    single :
        (bs : List Bool)
        → (ts : List ClosedTerm) × (d : Bool) × (rest : List Bool) × (length ts ≡ 1)
          × (bs ≡ encode_all ts ++ d ∷ rest)
        → (t : ClosedTerm) × (d : Bool) × (rest : List Bool) × (bs ≡ encode t ++ d ∷ rest)
    single bs ([], d, rest, n, e) = absurd (omega arith)
    single bs (t ∷ [], d, rest, n, e) =
        (t, d, rest, e ∙ ap (λ x. x ++ d ∷ rest) (unfold encode_all in append-nil (encode t)))
    single bs (t ∷ u ∷ ts, d, rest, n, e) = absurd (omega arith)

-- Under the size bound `validate` never reports an overflow: it accepts, finds trailing bits, or
-- finds the code truncated.
pub validate_total :
    (b : Bml)
    → IsAddressable b
    → (validate b ≡ ok tt) ⊎ (validate b ≡ err trailing_bits) ⊎ (validate b ≡ err truncated)
validate_total b h = rw (validate-check b h) (check_total (code b) 1)
