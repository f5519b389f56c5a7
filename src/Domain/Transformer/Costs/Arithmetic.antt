-- ===== src/Domain/Transformer/Costs/Arithmetic.antt =====
-- The nodes that the arithmetic of crates/domain/src/transformer.rs appends.
use bml.Float.{Float}
use bml.Domain.Ast.{NodeId}
use bml.Domain.Transformer.Costs.{Costs, bind-Costs, one-Costs, apply-Costs}
use bml.Domain.Transformer.Arithmetic as Arithmetic

module _ {float : Float} where
  pub two-Costs : Costs {float = float} (Arithmetic.two) 3 0
  unfolding Arithmetic.two
  two-Costs =
      bind-Costs 1 2 0 0 (one-Costs)
        λ first. bind-Costs 1 1 0 0 (one-Costs) λ second. apply-Costs first second

  pub exp2-Costs : (x : NodeId) → Costs {float = float} (Arithmetic.exp2 x) 2 0
  unfolding Arithmetic.exp2
  exp2-Costs x = bind-Costs 1 1 0 0 (one-Costs) λ unit. apply-Costs x unit

  pub log2-Costs : (x : NodeId) → Costs {float = float} (Arithmetic.log2 x) 6 0
  unfolding Arithmetic.log2
  log2-Costs x = bind-Costs 1 5 0 0 (one-Costs) λ first. bind-Costs 1 4 0 0 (one-Costs) λ second.
      bind-Costs 1 3 0 0 (one-Costs) λ third.
        bind-Costs 1 2 0 0 (apply-Costs first x)
          λ inner. bind-Costs 1 1 0 0 (apply-Costs inner second) λ outer. apply-Costs third outer

  pub sub-Costs : (x y : NodeId) → Costs {float = float} (Arithmetic.sub x y) 9 0
  unfolding Arithmetic.sub
  sub-Costs x y =
      bind-Costs 6 3 0 0 (log2-Costs x)
        λ log_x. bind-Costs 2 1 0 0 (exp2-Costs y) λ exp_y. apply-Costs log_x exp_y

  pub neg-Costs : (x : NodeId) → Costs {float = float} (Arithmetic.neg x) 16 0
  unfolding Arithmetic.neg
  neg-Costs x = bind-Costs 1 15 0 0 (one-Costs) λ unit.
      bind-Costs 6 9 0 0 (log2-Costs unit) λ nought.
        bind-Costs 6 3 0 0 (log2-Costs nought)
          λ infinite. bind-Costs 2 1 0 0 (exp2-Costs x) λ exp_x. apply-Costs infinite exp_x

  pub neg_real-Costs : (x : NodeId) → Costs {float = float} (Arithmetic.neg_real x) 12 0
  unfolding Arithmetic.neg_real
  neg_real-Costs x =
      bind-Costs 2 10 0 0 (exp2-Costs x)
        λ p. bind-Costs 1 9 0 0 (apply-Costs x p) λ q. sub-Costs q p

  pub add-Costs : (x y : NodeId) → Costs {float = float} (Arithmetic.add x y) 21 0
  unfolding Arithmetic.add
  add-Costs x y = bind-Costs 2 19 0 0 (exp2-Costs x) λ p.
      bind-Costs 1 18 0 0 (apply-Costs x p)
        λ q. bind-Costs 9 9 0 0 (sub-Costs q y) λ remainder. sub-Costs p remainder

  pub mul-Costs : (x y : NodeId) → Costs {float = float} (Arithmetic.mul x y) 35 0
  unfolding Arithmetic.mul
  mul-Costs x y = bind-Costs 6 29 0 0 (log2-Costs x) λ log_x.
      bind-Costs 6 23 0 0 (log2-Costs y)
        λ log_y. bind-Costs 21 2 0 0 (add-Costs log_x log_y) λ sum. exp2-Costs sum

  pub scale_signed-Costs : (x y : NodeId) → Costs {float = float} (Arithmetic.scale_signed x y) 82 0
  unfolding Arithmetic.scale_signed
  scale_signed-Costs x y = bind-Costs 2 80 0 0 (exp2-Costs x) λ p.
      bind-Costs 1 79 0 0 (apply-Costs x p) λ q.
        bind-Costs 35 44 0 0 (mul-Costs p y)
          λ left. bind-Costs 35 9 0 0 (mul-Costs q y) λ right. sub-Costs left right

  pub mul_signed-Costs : (x y : NodeId) → Costs {float = float} (Arithmetic.mul_signed x y) 197 0
  unfolding Arithmetic.mul_signed
  mul_signed-Costs x y = bind-Costs 2 195 0 0 (exp2-Costs x) λ p.
      bind-Costs 1 194 0 0 (apply-Costs x p) λ q. bind-Costs 2 192 0 0 (exp2-Costs y) λ r.
        bind-Costs 1 191 0 0 (apply-Costs y r) λ s. bind-Costs 35 156 0 0 (mul-Costs p r) λ pr.
          bind-Costs 35 121 0 0 (mul-Costs q s) λ qs. bind-Costs 35 86 0 0 (mul-Costs p s) λ ps.
            bind-Costs 35 51 0 0 (mul-Costs q r) λ qr.
              bind-Costs 21 30 0 0 (add-Costs pr qs) λ positive.
                bind-Costs 21 9 0 0 (add-Costs ps qr) λ negative. sub-Costs positive negative

  pub recip-Costs : (x : NodeId) → Costs {float = float} (Arithmetic.recip x) 24 0
  unfolding Arithmetic.recip
  recip-Costs x =
      bind-Costs 6 18 0 0 (log2-Costs x)
        λ log_x. bind-Costs 16 2 0 0 (neg-Costs log_x) λ negative. exp2-Costs negative

  pub div-Costs : (x y : NodeId) → Costs {float = float} (Arithmetic.div x y) 59 0
  unfolding Arithmetic.div
  div-Costs x y = bind-Costs 24 35 0 0 (recip-Costs y) λ inverse. mul-Costs x inverse

  pub pow-Costs : (x y : NodeId) → Costs {float = float} (Arithmetic.pow x y) 43 0
  unfolding Arithmetic.pow
  pow-Costs x y =
      bind-Costs 6 37 0 0 (log2-Costs x)
        λ log_x. bind-Costs 35 2 0 0 (mul-Costs y log_x) λ product. exp2-Costs product
