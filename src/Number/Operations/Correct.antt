-- ===== src/Number/Operations/Correct.antt =====
-- The rules of crates/domain/src/number/operations.rs as arithmetic on what terms stand for.
use bml.Prelude.{ℕ, ◌+◌, ◌^◌, ◌≤◌, ◌<◌, ◌≡◌, refl, arith, ok}
use bml.Symbolic.Term.{ClosedTerm, size}
use bml.Number.Encoding.{Bml}
use bml.Number.Encoding.Op.{Represents}
use bml.Number.Operations.{Rules, Built}
use bml.Number.Operations as Rule
use bml.Number.Operations.Expansion as Expansion
use bml.Number.Operations.Budget.{Builds, fits, exceeds}
use bml.Number.Operations.Within.{
  add-Builds, sub-Builds, neg-Builds, mul-Builds, div-Builds, recip-Builds,
}
use bml.Number.Operations.Meaning.{
  Reals, denote, denote-add, denote-sub, denote-neg, denote-mul, denote-div, denote-recip,
}

-- A built result stands for a term of the given meaning.
abbrev pub Denotes : (reals : Reals) → Bml → reals.R → Type 0
Denotes reals b v = (t : ClosedTerm) × Represents b t × (denote reals t ≡ v)

-- A rule for a term that fits the budget returns its code.
pub Builds-fits :
    {m : ℕ} {t : ClosedTerm} {r : Built}
    → Builds m t r
    → size t ≤ m
    → (b : Bml) × (r ≡ ok b) × Represents b t
Builds-fits (fits {b = b} h l) le = (b, refl, h)
Builds-fits (exceeds n l h) le = absurd (omega arith)

module _ (reals : Reals) (self : Rules) {x : Bml} {t : ClosedTerm} where
  open reals use {plus, minus, times, over, one, Positive}

  -- When the expansion of a negation fits the budget and `usize`, the rule returns a term for it.
  pub neg-Denotes :
      Represents x t
      → size (Expansion.neg t) + 64 < 2 ^ 64
      → size (Expansion.neg t) ≤ self.max_bits
      → (r : Bml) × (Rule.neg self x ≡ ok r) × Denotes reals r (minus (denote reals t))
  neg-Denotes rx small le =
      let (r, e, h) = Builds-fits (neg-Builds self rx small) le in
      (r, e, (Expansion.neg t, h, denote-neg reals t))

  -- When the expansion of the reciprocal of a positive value fits the budget and `usize`, the rule
  -- returns a term for the reciprocal.
  pub recip-Denotes :
      Represents x t
      → Positive (denote reals t)
      → size (Expansion.recip t) + 64 < 2 ^ 64
      → size (Expansion.recip t) ≤ self.max_bits
      → (r : Bml) × (Rule.recip self x ≡ ok r) × Denotes reals r (over one (denote reals t))
  recip-Denotes rx ht small le =
      let (r, e, h) = Builds-fits (recip-Builds self rx small) le in
      (r, e, (Expansion.recip t, h, denote-recip reals t ht))

  module _ {y : Bml} {u : ClosedTerm} where
    -- When the expansion of a sum fits the budget and `usize`, the rule returns a term for the sum.
    pub add-Denotes :
        Represents x t
        → Represents y u
        → size (Expansion.add t u) + 64 < 2 ^ 64
        → size (Expansion.add t u) ≤ self.max_bits
        → (r : Bml) × (Rule.add self x y ≡ ok r)
          × Denotes reals r (plus (denote reals t) (denote reals u))
    add-Denotes rx ry small le =
        let (r, e, h) = Builds-fits (add-Builds self rx ry small) le in
        (r, e, (Expansion.add t u, h, denote-add reals t u))

    -- When the expansion of a difference fits the budget and `usize`, the rule returns a term for it.
    pub sub-Denotes :
        Represents x t
        → Represents y u
        → size (Expansion.sub t u) + 64 < 2 ^ 64
        → size (Expansion.sub t u) ≤ self.max_bits
        → (r : Bml) × (Rule.sub self x y ≡ ok r)
          × Denotes reals r (plus (denote reals t) (minus (denote reals u)))
    sub-Denotes rx ry small le =
        let (r, e, h) = Builds-fits (sub-Builds self rx ry small) le in
        (r, e, (Expansion.sub t u, h, denote-sub reals t u))

    -- When the expansion of a product of positive values fits the budget and `usize`, the rule
    -- returns a term for the product.
    pub mul-Denotes :
        Represents x t
        → Represents y u
        → Positive (denote reals t)
        → Positive (denote reals u)
        → size (Expansion.mul t u) + 64 < 2 ^ 64
        → size (Expansion.mul t u) ≤ self.max_bits
        → (r : Bml) × (Rule.mul self x y ≡ ok r)
          × Denotes reals r (times (denote reals t) (denote reals u))
    mul-Denotes rx ry ht hu small le =
        let (r, e, h) = Builds-fits (mul-Builds self rx ry small) le in
        (r, e, (Expansion.mul t u, h, denote-mul reals t u ht hu))

    -- When the expansion of a quotient of positive values fits the budget and `usize`, the rule
    -- returns a term for the quotient.
    pub div-Denotes :
        Represents x t
        → Represents y u
        → Positive (denote reals t)
        → Positive (denote reals u)
        → size (Expansion.div t u) + 64 < 2 ^ 64
        → size (Expansion.div t u) ≤ self.max_bits
        → (r : Bml) × (Rule.div self x y ≡ ok r)
          × Denotes reals r (over (denote reals t) (denote reals u))
    div-Denotes rx ry ht hu small le =
        let (r, e, h) = Builds-fits (div-Builds self rx ry small) le in
        (r, e, (Expansion.div t u, h, denote-div reals t u ht hu))
