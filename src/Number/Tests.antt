-- ===== src/Number/Tests.antt =====
-- Runs of the code of crates/domain/src/number, and the theorems on it at concrete inputs.
use bml.Prelude.{
  ℕ, ◌+◌, ◌^◌, ◌≤◌, ◌<◌, ◌≡◌, refl, Bool, true, false, not, some, List, [], ◌∷◌, ◌++◌, ◌⊎◌, ◌↔◌,
  arith, ltb, if◌then◌else◌, Result, ok, err,
}
use bml.Symbolic.Term.{ClosedTerm, size}
use bml.Symbolic.Term as Term
use bml.Number.Words.{leading_zeros, test_bit}
use bml.Number.Prefix.{encode}
use bml.Number.Encoding.{
  Bml, bit_limit, trailing_bits, truncated, bit_len, validate, validate_from, from_words_le, one,
  op_with_limit, from_binary, to_binary, bit_at, bit, get_last?, checked_add, rposition, digits,
}
use bml.Number.Encoding.Validate.{
  IsAddressable, code, validate-ok_iff, validate-trailing_iff, validate_total,
}
use bml.Number.Encoding.Op.{Represents, one-Represents, op_with_limit_lem}
use bml.Number.Encoding.Trim.{canonical_ext}
use bml.Number.Encoding.Import.{trimmed, from_words_le-Represents, from_words_le-words}
use bml.Number.Encoding.Text.{from_binary-to_binary}
use bml.Number.Operations.{Rules, default}
use bml.Number.Operations as Rule
use bml.Number.Operations.Expansion as Expansion
use bml.Number.Operations.Budget.{Builds}
use bml.Number.Operations.Size.{lengths}
use bml.Number.Operations.Within.{add-Builds, pow-Builds, sqrt-Builds}
use bml.Number.Operations.Meaning.{Reals}
use bml.Number.Operations.Correct.{
  Denotes, add-Denotes, sub-Denotes, neg-Denotes, mul-Denotes, div-Denotes, recip-Denotes,
}
use bml.Number.Stream.{limit, check_depth, operator_count}
use bml.Number.Stream.Depth.{
  height, operators, check_depth-ok_iff, check_depth-encode, operator_count-operators,
}
use bml.Float.Numbers.{numbers}
use bml.Symbolic.Basis.{EvalError, bml_basis, evaluate_real, apply_real}
use bml.Number.Encoding.Eval.{to_f64}
use bml.Number.Encoding.Eval.Correct.{to_f64-evaluate_real}

-- `BML(1, 1)`, of the bits 100.
abbrev two : Bml
two = record { words = 4 ∷ [] }

abbrev two_term : ClosedTerm
two_term = Term.op Term.one Term.one

-- The bits 1000, where a bit follows the code of a term.
abbrev trailing : Bml
trailing = record { words = 8 ∷ [] }

-- The words of `two` and a zero word.
abbrev padded : List ℕ
padded = 4 ∷ 0 ∷ []

two-Represents : Represents two two_term
unfolding bit_len get_last? digits encode bit bit_at test_bit leading_zeros
two-Represents = record {
  canonical = record { words_fit = (omega arith, tt); ends = omega arith };
  code_is = refl;
}

two-IsAddressable : IsAddressable two
unfolding bit_len get_last? leading_zeros
two-IsAddressable = omega arith

trailing-IsAddressable : IsAddressable trailing
unfolding bit_len get_last? leading_zeros
trailing-IsAddressable = omega arith

validate-ok_iff_example : (validate two ≡ ok tt) ↔ ((t : ClosedTerm) × (code two ≡ encode t))
validate-ok_iff_example = validate-ok_iff two two-IsAddressable

validate-trailing_iff_example :
    (validate trailing ≡ err trailing_bits)
    ↔ ((t : ClosedTerm) × (d : Bool) × (rest : List Bool) × (code trailing ≡ encode t ++ d ∷ rest))
validate-trailing_iff_example = validate-trailing_iff trailing trailing-IsAddressable

validate-trailing : validate trailing ≡ err trailing_bits
unfolding validate validate_from bit_len get_last? bit bit_at test_bit leading_zeros checked_add
validate-trailing = refl

validate_total_example :
    (validate trailing ≡ ok tt)
    ⊎ (validate trailing ≡ err trailing_bits)
    ⊎ (validate trailing ≡ err truncated)
validate_total_example = validate_total trailing trailing-IsAddressable

small : bit_len two + bit_len two + 64 < 2 ^ 64
unfolding bit_len get_last? leading_zeros
small = omega arith

op_with_limit_lem_example :
    (r : Bml) × (op_with_limit two two 9 ≡ (
      if ltb 9 (bit_len two + bit_len two + 1)
      then err (bit_limit (bit_len two + bit_len two + 1) 9)
      else ok r))
    × Represents r (Term.op two_term two_term)
    × (bit_len r ≡ bit_len two + bit_len two + 1)
op_with_limit_lem_example = op_with_limit_lem two two 9 two-Represents two-Represents small

canonical_ext_example : two ≡ two
canonical_ext_example =
    canonical_ext two two two-Represents.canonical two-Represents.canonical (λ j. refl)

padded_imported : from_words_le padded ≡ ok two
unfolding from_words_le rposition validate validate_from bit_len get_last? bit bit_at test_bit
    leading_zeros checked_add
padded_imported = refl

padded-IsAddressable : IsAddressable (trimmed padded)
unfolding rposition bit_len get_last? leading_zeros
padded-IsAddressable = omega arith

from_words_le-Represents_example :
    ((t : ClosedTerm) × Represents two t) × ((j : ℕ) → bit_at two.words j ≡ bit_at padded j)
from_words_le-Represents_example =
    from_words_le-Represents padded two (omega arith, (omega arith, tt)) padded-IsAddressable
      padded_imported

from_words_le-words_example : from_words_le (4 ∷ []) ≡ ok two
from_words_le-words_example = from_words_le-words two two-Represents two-IsAddressable

from_binary-to_binary_example : from_binary (to_binary two) ≡ ok two
from_binary-to_binary_example = from_binary-to_binary two two-Represents two-IsAddressable

-- A budget of ten bits.
abbrev tight : Rules
tight = record { max_bits = 10 }

add-Builds_example : Builds 10 (Expansion.add Term.one Term.one) (Rule.add tight one one)
add-Builds_example = add-Builds tight one-Represents one-Represents (omega lengths)

pow-Builds_example : Builds 10 (Expansion.pow Term.one Term.one) (Rule.pow tight one one)
pow-Builds_example = pow-Builds tight one-Represents one-Represents (omega lengths)

sqrt-Builds_example : Builds 10 (Expansion.sqrt Term.one) (Rule.sqrt tight one)
sqrt-Builds_example = sqrt-Builds tight one-Represents (omega lengths)

-- Arithmetic modulo two, with negation for the power of two, has the facts of the reals.
abbrev xor : Bool → Bool → Bool
xor true b = not b
xor false b = b

abbrev times_not : Bool → Bool → Bool
times_not a b = not (xor (not a) (not b))

abbrev parity : Reals
parity = record {
  R = Bool;
  zero = false;
  one = true;
  plus = xor;
  minus = λ b. b;
  times = times_not;
  over = times_not;
  exp2 = not;
  log2 = not;
  Positive = λ b. Unit;
  plus_assoc = by_cases3;
  plus_comm = by_cases2;
  plus-zero = xor-false;
  plus-minus = xor_self;
  log2-exp2 = not-not;
  exp2-log2 = λ b _. not-not b;
  exp2-zero = refl;
  exp2-plus = exp2_law;
  exp2-difference = exp2_law;
  exp2-pos = λ b. tt;
  gap-pos = λ b. tt;
}
  where
    by_cases3 : (x y z : Bool) → xor (xor x y) z ≡ xor x (xor y z)
    by_cases3 true true true = refl
    by_cases3 true true false = refl
    by_cases3 true false z = refl
    by_cases3 false y z = refl

    by_cases2 : (x y : Bool) → xor x y ≡ xor y x
    by_cases2 true true = refl
    by_cases2 true false = refl
    by_cases2 false true = refl
    by_cases2 false false = refl

    xor-false : (x : Bool) → xor x false ≡ x
    xor-false true = refl
    xor-false false = refl

    xor_self : (x : Bool) → xor x x ≡ false
    xor_self true = refl
    xor_self false = refl

    not-not : (x : Bool) → not (not x) ≡ x
    not-not true = refl
    not-not false = refl

    exp2_law : (x y : Bool) → not (xor x y) ≡ times_not (not x) (not y)
    exp2_law true true = refl
    exp2_law true false = refl
    exp2_law false true = refl
    exp2_law false false = refl

add-Denotes_example : (r : Bml) × (Rule.add default one one ≡ ok r) × Denotes parity r false
add-Denotes_example =
    add-Denotes parity default one-Represents one-Represents (omega lengths) (omega lengths)

sub-Denotes_example : (r : Bml) × (Rule.sub default one one ≡ ok r) × Denotes parity r false
sub-Denotes_example =
    sub-Denotes parity default one-Represents one-Represents (omega lengths) (omega lengths)

neg-Denotes_example : (r : Bml) × (Rule.neg default one ≡ ok r) × Denotes parity r true
neg-Denotes_example = neg-Denotes parity default one-Represents (omega lengths) (omega lengths)

mul-Denotes_example : (r : Bml) × (Rule.mul default one one ≡ ok r) × Denotes parity r true
mul-Denotes_example =
    mul-Denotes parity default one-Represents one-Represents tt tt (omega lengths) (omega lengths)

div-Denotes_example : (r : Bml) × (Rule.div default one one ≡ ok r) × Denotes parity r true
div-Denotes_example =
    div-Denotes parity default one-Represents one-Represents tt tt (omega lengths) (omega lengths)

recip-Denotes_example : (r : Bml) × (Rule.recip default one ≡ ok r) × Denotes parity r true
recip-Denotes_example =
    recip-Denotes parity default one-Represents tt (omega lengths) (omega lengths)

check_depth-ok_iff_example : (check_depth (true ∷ false ∷ false ∷ []) 5 ≡ ok 3) ↔ (
    (t : ClosedTerm) × (rest : List Bool) × (true ∷ false ∷ false ∷ [] ≡ encode t ++ rest)
    × (height t ≤ 5)
    × (3 ≡ size t))
check_depth-ok_iff_example = check_depth-ok_iff (true ∷ false ∷ false ∷ []) 5 3 (omega arith)

check_depth-encode_example :
    check_depth (encode two_term ++ true ∷ []) 0
    ≡ (if ltb 0 (height two_term) then err limit else ok (size two_term))
check_depth-encode_example = check_depth-encode two_term (true ∷ []) 0 (omega arith)

operator_count-operators_example : operator_count two ≡ operators two_term
operator_count-operators_example = operator_count-operators two two-Represents

to_f64-evaluate_real_example :
    ((r : Result (EvalError numbers) ℕ) × (to_f64 numbers two ≡ some r))
    × ((to_f64 numbers two ≡ some (ok 2)) ↔ (evaluate_real numbers bml_basis two_term ≡ ok 2))
to_f64-evaluate_real_example = to_f64-evaluate_real numbers two 2 two-Represents

evaluate_two : evaluate_real numbers bml_basis two_term ≡ ok 2
unfolding evaluate_real apply_real
evaluate_two = refl
