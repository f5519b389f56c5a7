-- ===== src/Number/Operations/Within.antt =====
-- Each rule of crates/domain/src/number/operations.rs under its budget.
use bml.Prelude.{◌+◌, ◌^◌, ◌<◌}
use bml.Symbolic.Term.{ClosedTerm, size}
use bml.Number.Encoding.{Bml}
use bml.Number.Encoding.Op.{Represents, one-Represents}
use bml.Number.Operations.{Rules}
use bml.Number.Operations as Rule
use bml.Number.Operations.Expansion as Expansion
use bml.Number.Operations.Size.{lengths}
use bml.Number.Operations.Budget.{Builds, Builds-bind, op-Builds}

-- On operands that stand for terms, whose expansion `usize` can count, the rule for a power of two returns the
-- code of the expansion when it fits the budget; otherwise it reports the budget and a length
-- above it and at most that of the expansion.
pub exp2-Builds :
    (self : Rules) {x : Bml} {t : ClosedTerm}
    → Represents x t
    → size (Expansion.exp2 t) + 64 < 2 ^ 64
    → Builds self.max_bits (Expansion.exp2 t) (Rule.exp2 self x)
unfolding Rule.exp2 Expansion.exp2
exp2-Builds self {t = t} rx small = op-Builds self rx one-Represents (omega lengths)

-- On operands that stand for terms, whose expansion `usize` can count, the rule for a logarithm returns the
-- code of the expansion when it fits the budget; otherwise it reports the budget and a length
-- above it and at most that of the expansion.
pub log2-Builds :
    (self : Rules) {x : Bml} {t : ClosedTerm}
    → Represents x t
    → size (Expansion.log2 t) + 64 < 2 ^ 64
    → Builds self.max_bits (Expansion.log2 t) (Rule.log2 self x)
unfolding Rule.log2 Expansion.log2
log2-Builds self {t = t} rx small =
    Builds-bind (omega lengths) (op-Builds self one-Represents rx (omega lengths)) λ _ ri.
      Builds-bind (omega lengths) (exp2-Builds self ri (omega lengths))
        λ _ rr. op-Builds self one-Represents rr (omega lengths)

pub sub_positive-Builds :
    (self : Rules) {x y : Bml} {t u : ClosedTerm}
    → Represents x t
    → Represents y u
    → size (Expansion.sub_positive t u) + 64 < 2 ^ 64
    → Builds self.max_bits (Expansion.sub_positive t u) (Rule.sub_positive self x y)
unfolding Rule.sub_positive Expansion.sub_positive
sub_positive-Builds self {t = t} {u = u} rx ry small =
    Builds-bind (omega lengths) (log2-Builds self rx (omega lengths)) λ _ rl.
      Builds-bind (omega lengths) (exp2-Builds self ry (omega lengths))
        λ _ re. op-Builds self rl re (omega lengths)

-- On operands that stand for terms, whose expansion `usize` can count, the rule for a sum returns the
-- code of the expansion when it fits the budget; otherwise it reports the budget and a length
-- above it and at most that of the expansion.
pub add-Builds :
    (self : Rules) {x y : Bml} {t u : ClosedTerm}
    → Represents x t
    → Represents y u
    → size (Expansion.add t u) + 64 < 2 ^ 64
    → Builds self.max_bits (Expansion.add t u) (Rule.add self x y)
unfolding Rule.add Expansion.add Expansion.gap
add-Builds self {t = t} {u = u} rx ry small =
    Builds-bind (omega lengths) (exp2-Builds self rx (omega lengths)) λ _ rp.
      Builds-bind (omega lengths) (op-Builds self rx rp (omega lengths)) λ _ rq.
        Builds-bind (omega lengths) (sub_positive-Builds self rq ry (omega lengths))
          λ _ rd. sub_positive-Builds self rp rd (omega lengths)

-- On operands that stand for terms, whose expansion `usize` can count, the rule for a negation returns the
-- code of the expansion when it fits the budget; otherwise it reports the budget and a length
-- above it and at most that of the expansion.
pub neg-Builds :
    (self : Rules) {x : Bml} {t : ClosedTerm}
    → Represents x t
    → size (Expansion.neg t) + 64 < 2 ^ 64
    → Builds self.max_bits (Expansion.neg t) (Rule.neg self x)
unfolding Rule.neg Expansion.neg Expansion.gap
neg-Builds self {t = t} rx small =
    Builds-bind (omega lengths) (exp2-Builds self rx (omega lengths)) λ _ rp.
      Builds-bind (omega lengths) (op-Builds self rx rp (omega lengths))
        λ _ rq. sub_positive-Builds self rq rp (omega lengths)

-- On operands that stand for terms, whose expansion `usize` can count, the rule for a difference returns the
-- code of the expansion when it fits the budget; otherwise it reports the budget and a length
-- above it and at most that of the expansion.
pub sub-Builds :
    (self : Rules) {x y : Bml} {t u : ClosedTerm}
    → Represents x t
    → Represents y u
    → size (Expansion.sub t u) + 64 < 2 ^ 64
    → Builds self.max_bits (Expansion.sub t u) (Rule.sub self x y)
unfolding Rule.sub Expansion.sub Expansion.gap
sub-Builds self {t = t} {u = u} rx ry small =
    Builds-bind (omega lengths) (exp2-Builds self rx (omega lengths)) λ _ rp.
      Builds-bind (omega lengths) (op-Builds self rx rp (omega lengths)) λ _ rq.
        Builds-bind (omega lengths) (add-Builds self rq ry (omega lengths))
          λ _ rs. sub_positive-Builds self rp rs (omega lengths)

-- On operands that stand for terms, whose expansion `usize` can count, the rule for a product returns the
-- code of the expansion when it fits the budget; otherwise it reports the budget and a length
-- above it and at most that of the expansion.
pub mul-Builds :
    (self : Rules) {x y : Bml} {t u : ClosedTerm}
    → Represents x t
    → Represents y u
    → size (Expansion.mul t u) + 64 < 2 ^ 64
    → Builds self.max_bits (Expansion.mul t u) (Rule.mul self x y)
unfolding Rule.mul Expansion.mul
mul-Builds self {t = t} {u = u} rx ry small =
    Builds-bind (omega lengths) (log2-Builds self rx (omega lengths)) λ _ rl.
      Builds-bind (omega lengths) (log2-Builds self ry (omega lengths)) λ _ rm.
        Builds-bind (omega lengths) (add-Builds self rl rm (omega lengths))
          λ _ rs. exp2-Builds self rs (omega lengths)

-- On operands that stand for terms, whose expansion `usize` can count, the rule for a quotient returns the
-- code of the expansion when it fits the budget; otherwise it reports the budget and a length
-- above it and at most that of the expansion.
pub div-Builds :
    (self : Rules) {x y : Bml} {t u : ClosedTerm}
    → Represents x t
    → Represents y u
    → size (Expansion.div t u) + 64 < 2 ^ 64
    → Builds self.max_bits (Expansion.div t u) (Rule.div self x y)
unfolding Rule.div Expansion.div
div-Builds self {t = t} {u = u} rx ry small =
    Builds-bind (omega lengths) (log2-Builds self rx (omega lengths)) λ _ rl.
      Builds-bind (omega lengths) (log2-Builds self ry (omega lengths)) λ _ rm.
        Builds-bind (omega lengths) (sub-Builds self rl rm (omega lengths))
          λ _ rs. exp2-Builds self rs (omega lengths)

-- On operands that stand for terms, whose expansion `usize` can count, the rule for a reciprocal returns the
-- code of the expansion when it fits the budget; otherwise it reports the budget and a length
-- above it and at most that of the expansion.
pub recip-Builds :
    (self : Rules) {x : Bml} {t : ClosedTerm}
    → Represents x t
    → size (Expansion.recip t) + 64 < 2 ^ 64
    → Builds self.max_bits (Expansion.recip t) (Rule.recip self x)
unfolding Rule.recip Expansion.recip
recip-Builds self {t = t} rx small =
    Builds-bind (omega lengths) (log2-Builds self rx (omega lengths)) λ _ rl.
      Builds-bind (omega lengths) (neg-Builds self rl (omega lengths))
        λ _ rn. exp2-Builds self rn (omega lengths)

pub scale-Builds :
    (self : Rules) {x y : Bml} {t u : ClosedTerm}
    → Represents x t
    → Represents y u
    → size (Expansion.scale t u) + 64 < 2 ^ 64
    → Builds self.max_bits (Expansion.scale t u) (Rule.scale self x y)
unfolding Rule.scale Expansion.scale Expansion.gap
scale-Builds self {t = t} {u = u} rx ry small =
    Builds-bind (omega lengths) (exp2-Builds self rx (omega lengths)) λ _ rp.
      Builds-bind (omega lengths) (op-Builds self rx rp (omega lengths)) λ _ rq.
        Builds-bind (omega lengths) (mul-Builds self rp ry (omega lengths)) λ _ rm.
          Builds-bind (omega lengths) (mul-Builds self rq ry (omega lengths))
            λ _ rn. sub_positive-Builds self rm rn (omega lengths)

-- On operands that stand for terms, whose expansion `usize` can count, the rule for a power returns the
-- code of the expansion when it fits the budget; otherwise it reports the budget and a length
-- above it and at most that of the expansion.
pub pow-Builds :
    (self : Rules) {x y : Bml} {t u : ClosedTerm}
    → Represents x t
    → Represents y u
    → size (Expansion.pow t u) + 64 < 2 ^ 64
    → Builds self.max_bits (Expansion.pow t u) (Rule.pow self x y)
unfolding Rule.pow Expansion.pow
pow-Builds self {t = t} {u = u} rx ry small =
    Builds-bind (omega lengths) (log2-Builds self rx (omega lengths)) λ _ rl.
      Builds-bind (omega lengths) (scale-Builds self rl ry (omega lengths))
        λ _ rs. exp2-Builds self rs (omega lengths)

-- On operands that stand for terms, whose expansion `usize` can count, the rule for a square root returns the
-- code of the expansion when it fits the budget; otherwise it reports the budget and a length
-- above it and at most that of the expansion.
pub sqrt-Builds :
    (self : Rules) {x : Bml} {t : ClosedTerm}
    → Represents x t
    → size (Expansion.sqrt t) + 64 < 2 ^ 64
    → Builds self.max_bits (Expansion.sqrt t) (Rule.sqrt self x)
unfolding Rule.sqrt Expansion.sqrt
sqrt-Builds self {t = t} rx small =
    Builds-bind (omega lengths) (neg-Builds self one-Represents (omega lengths)) λ _ rn.
      Builds-bind (omega lengths) (exp2-Builds self rn (omega lengths)) λ _ rh.
        Builds-bind (omega lengths) (log2-Builds self rx (omega lengths)) λ _ rl.
          Builds-bind (omega lengths) (scale-Builds self rl rh (omega lengths))
            λ _ rs. exp2-Builds self rs (omega lengths)
