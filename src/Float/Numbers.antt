-- ===== src/Float/Numbers.antt =====
-- An instance of `Float` to run the model on: natural numbers.
use bml.Prelude.{ℕ, ◌+◌, ◌-◌, ◌*◌, true, false, ltb, leb, ◌==◌}
use bml.Float.{Float}

-- Numbers with the sum for the power of two and the zero for the logarithm.
abbrev pub numbers : Float
numbers = record {
  F64 = ℕ;
  zero = 0;
  one = 1;
  nan = 7;
  neg_infinity = 0;
  is_finite = λ x. true;
  is_nan = λ x. false;
  lt = ltb;
  le = leb;
  eq = λ x y. x == y;
  exp = λ x. x;
  ln = λ x. x;
  exp2 = λ x. x + x;
  log2 = λ x. 0;
  add = λ x y. x + y;
  sub = λ x y. x - y;
  mul = λ x y. x * y;
  div = λ x y. x;
  neg = λ x. x;
  powf = λ x y. x * y;
  abs = λ x. x;
  sqrt = λ x. x;
  ceil = λ x. x;
  larger = λ x y. x;
  of_nat = λ n. n;
  fract = λ x. 0;
  to_u32 = λ x. x;
  from_bits = λ x. x;
  half = 1;
  tiny = 0;
  log2_e = 1;
  to_bits = λ x. x;
  to_bits-injective = λ a b h. h;
}
