-- ===== src/Number/Operations/Expansion.antt =====
-- The closed terms that the rules of crates/domain/src/number/operations.rs are meant to build.
use bml.Symbolic.Term.{ClosedTerm, one, op}

unfoldable pub exp2 : ClosedTerm → ClosedTerm
exp2 x = op x one

unfoldable pub log2 : ClosedTerm → ClosedTerm
unfolding exp2
log2 x = op one (exp2 (op one x))

-- The difference of two terms, the first positive.
unfoldable pub sub_positive : ClosedTerm → ClosedTerm → ClosedTerm
sub_positive x y = op (log2 x) (exp2 y)

-- `2 ^ x - x`
unfoldable pub gap : ClosedTerm → ClosedTerm
gap x = op x (exp2 x)

unfoldable pub add : ClosedTerm → ClosedTerm → ClosedTerm
add x y = sub_positive (exp2 x) (sub_positive (gap x) y)

unfoldable pub neg : ClosedTerm → ClosedTerm
neg x = sub_positive (gap x) (exp2 x)

unfoldable pub sub : ClosedTerm → ClosedTerm → ClosedTerm
sub x y = sub_positive (exp2 x) (add (gap x) y)

unfoldable pub mul : ClosedTerm → ClosedTerm → ClosedTerm
mul x y = exp2 (add (log2 x) (log2 y))

unfoldable pub div : ClosedTerm → ClosedTerm → ClosedTerm
div x y = exp2 (sub (log2 x) (log2 y))

unfoldable pub recip : ClosedTerm → ClosedTerm
recip x = exp2 (neg (log2 x))

unfoldable pub scale : ClosedTerm → ClosedTerm → ClosedTerm
scale x y = sub_positive (mul (exp2 x) y) (mul (gap x) y)

unfoldable pub pow : ClosedTerm → ClosedTerm → ClosedTerm
pow x y = exp2 (scale (log2 x) y)

unfoldable pub sqrt : ClosedTerm → ClosedTerm
sqrt x = exp2 (scale (log2 x) (exp2 (neg one)))
