-- ===== src/Domain/Transformer/Arithmetic.antt =====
-- crates/domain/src/transformer.rs: the primitives, and the arithmetic derived from them.
use bml.Float.{Float}
use bml.Domain.Ast.{NodeId}
use bml.Domain.Transformer.{
  call_one, call_var, call_const, call_bml, Build, done, call, pool, ◌>>=◌,
}
use bml.Prelude.{ℕ}

module _ {float : Float} where
  open float use {F64}

  unfoldable pub one : Build float NodeId
  one = call call_one done

  unfoldable pub var : ℕ → Build float NodeId
  var id = call (call_var id) done

  unfoldable pub external_constant : ℕ → Build float NodeId
  external_constant id = call (call_const id) done

  unfoldable pub constant : F64 → Build float NodeId
  constant value = pool value λ id. call (call_const id) done

  unfoldable pub apply : NodeId → NodeId → Build float NodeId
  apply left right = call (call_bml left right) done

  -- `2 = bml(1, 1)`
  unfoldable pub two : Build float NodeId
  two = do first ← one; second ← one; apply first second

  -- `2 ^ x`
  unfoldable pub exp2 : NodeId → Build float NodeId
  exp2 x = do unit ← one; apply x unit

  -- The base-two logarithm of `x`.
  unfoldable pub log2 : NodeId → Build float NodeId
  log2 x = do
    first ← one
    second ← one
    third ← one
    inner ← apply first x
    outer ← apply inner second
    apply third outer

  -- `x - y`, for positive `x`.
  unfoldable pub sub : NodeId → NodeId → Build float NodeId
  sub x y = do log_x ← log2 x; exp_y ← exp2 y; apply log_x exp_y

  -- The negation by the infinite logarithm of zero.
  unfoldable pub neg : NodeId → Build float NodeId
  neg x = do
    unit ← one
    nought ← log2 unit
    infinite ← log2 nought
    exp_x ← exp2 x
    apply infinite exp_x

  -- `- x` with finite parts.
  unfoldable pub neg_real : NodeId → Build float NodeId
  neg_real x = do p ← exp2 x; q ← apply x p; sub q p

  -- `x + y`
  unfoldable pub add : NodeId → NodeId → Build float NodeId
  add x y = do p ← exp2 x; q ← apply x p; remainder ← sub q y; sub p remainder

  -- `x * y`, for positive operands.
  unfoldable pub mul : NodeId → NodeId → Build float NodeId
  mul x y = do log_x ← log2 x; log_y ← log2 y; sum ← add log_x log_y; exp2 sum

  -- `x * y`, for positive `y`.
  unfoldable pub scale_signed : NodeId → NodeId → Build float NodeId
  scale_signed x y = do p ← exp2 x; q ← apply x p; left ← mul p y; right ← mul q y; sub left right

  -- `x * y`
  unfoldable pub mul_signed : NodeId → NodeId → Build float NodeId
  mul_signed x y = do
    p ← exp2 x
    q ← apply x p
    r ← exp2 y
    s ← apply y r
    pr ← mul p r
    qs ← mul q s
    ps ← mul p s
    qr ← mul q r
    positive ← add pr qs
    negative ← add ps qr
    sub positive negative

  -- `1 / x` by the infinite logarithm of zero, for positive `x`.
  unfoldable pub recip : NodeId → Build float NodeId
  recip x = do log_x ← log2 x; negative ← neg log_x; exp2 negative

  -- `x / y`
  unfoldable pub div : NodeId → NodeId → Build float NodeId
  div x y = do inverse ← recip y; mul x inverse

  -- `x ^ y`, for `x` above one.
  unfoldable pub pow : NodeId → NodeId → Build float NodeId
  pow x y = do log_x ← log2 x; product ← mul y log_x; exp2 product
