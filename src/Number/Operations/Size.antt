-- ===== src/Number/Operations/Size.antt =====
-- The length of each expansion of crates/domain/src/number/operations.rs, as a function of the
-- lengths of its operands.
use bml.Prelude.{
  ℕ, zero, suc, ◌+◌, ◌-◌, ◌*◌, ◌/◌, ◌%◌, ◌^◌, ◌≤◌, ◌<◌, min, max, ◌≡◌, ◌≢◌, refl, sym, ap, ap₂, ◌∙◌,
  subst, Bool, true, false, not, ◌&&◌, ◌||◌, cond, Option, none, some, List, [], ◌∷◌, ◌++◌, map,
  append_assoc, append-nil, ◌⊎◌, inl, inr, ◌↔◌, arith, tests, ltb, leb, ltb→lt, lt→ltb, ltb→le,
  ltb-eq-false, leb→le, ◌==◌, ==_iff, ==_refl, if◌then◌else◌, Bool-cases, Option-cases, length,
  get_elem?, get_or, set, take, drop, replicate, length-append, length-set, length-replicate,
  get_or-set_self, get_or-set_ne, get_or-replicate, get_or_of_ge, length-drop, drop-length_append,
  take-length_append, get_elem?-append_left, get_elem?-append_end, length-map, Result, ok, err,
  ok_or, map_err, ◌>>=◌, ◌>>◌, Result-cases, >>-eq-ok,
}
use bml.Symbolic.Term.{ClosedTerm, size}
use bml.Symbolic.Term as Term
use bml.Number.Operations.Expansion as Expansion

pub op : (x y : ClosedTerm) → size (Term.op x y) ≡ size x + size y + 1
unfolding size
op x y = refl

pub one : size Term.one ≡ 1
unfolding size
one = refl

pub exp2 : (x : ClosedTerm) → size (Expansion.exp2 x) ≡ size x + 2
unfolding Expansion.exp2 size
exp2 x = omega arith

pub log2 : (x : ClosedTerm) → size (Expansion.log2 x) ≡ size x + 6
unfolding Expansion.log2 size
log2 x = omega arith

pub sub_positive : (x y : ClosedTerm) → size (Expansion.sub_positive x y) ≡ size x + size y + 9
unfolding Expansion.sub_positive size
sub_positive x y = omega (arith, log2 x, exp2 y)

pub gap : (x : ClosedTerm) → size (Expansion.gap x) ≡ 2 * size x + 3
unfolding Expansion.gap size
gap x = omega (arith, exp2 x)

pub ruleset basic = (arith, op, one, exp2, log2, sub_positive, gap)

pub add : (x y : ClosedTerm) → size (Expansion.add x y) ≡ 3 * size x + size y + 23
unfolding Expansion.add
add x y = omega basic

pub neg : (x : ClosedTerm) → size (Expansion.neg x) ≡ 3 * size x + 14
unfolding Expansion.neg
neg x = omega basic

pub sub : (x y : ClosedTerm) → size (Expansion.sub x y) ≡ 7 * size x + size y + 43
unfolding Expansion.sub
sub x y = omega (basic, add)

pub mul : (x y : ClosedTerm) → size (Expansion.mul x y) ≡ 3 * size x + size y + 49
unfolding Expansion.mul
mul x y = omega (basic, add)

pub div : (x y : ClosedTerm) → size (Expansion.div x y) ≡ 7 * size x + size y + 93
unfolding Expansion.div
div x y = omega (basic, sub)

pub recip : (x : ClosedTerm) → size (Expansion.recip x) ≡ 3 * size x + 34
unfolding Expansion.recip
recip x = omega (basic, neg)

pub scale : (x y : ClosedTerm) → size (Expansion.scale x y) ≡ 9 * size x + 2 * size y + 122
unfolding Expansion.scale
scale x y = omega (basic, mul)

pub pow : (x y : ClosedTerm) → size (Expansion.pow x y) ≡ 9 * size x + 2 * size y + 178
unfolding Expansion.pow
pow x y = omega (basic, scale)

pub sqrt : (x : ClosedTerm) → size (Expansion.sqrt x) ≡ 9 * size x + 216
unfolding Expansion.sqrt
sqrt x = omega (basic, scale, neg)

pub ruleset lengths = (basic, add, neg, sub, mul, div, recip, scale, pow, sqrt)
