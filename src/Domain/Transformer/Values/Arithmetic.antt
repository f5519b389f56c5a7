-- ===== src/Domain/Transformer/Values/Arithmetic.antt =====
-- The arithmetic of crates/domain/src/transformer.rs makes nodes of the values of its formulas.
use bml.Prelude.{◌^◌, ◌≤◌, List}
use bml.Float.{Float}
use bml.Domain.Ast.{NodeId}
use bml.Domain.Soa.{NodeSoa, len}
use bml.Domain.Transformer.Values.Primitives.{one-Makes, apply-Makes}
use bml.Domain.Transformer.Values.{Holds, Makes, bind-Makes}
use bml.Domain.Transformer.Arithmetic as Arithmetic
use bml.Domain.Transformer.Formula as Formula

module _ (float : Float) (inputs : List (float.F64)) (end : NodeSoa float)
    (small : len float end ≤ 2 ^ 32) where
  open float use {F64}

  pub two-Makes :
      Makes float inputs end (Arithmetic.two) (λ id. Holds float inputs end id (Formula.two float))
  unfolding Arithmetic.two Formula.two
  two-Makes = bind-Makes float inputs end (one-Makes float inputs end small) λ _ e0.
      bind-Makes float inputs end (one-Makes float inputs end small)
        λ _ e1. apply-Makes float inputs end small e0 e1

  pub exp2-Makes :
      {x : NodeId} {x' : F64}
      → Holds float inputs end x x'
      → Makes float inputs end
          (Arithmetic.exp2 x)
          (λ id. Holds float inputs end id (Formula.exp2 float x'))
  unfolding Arithmetic.exp2 Formula.exp2
  exp2-Makes h0 =
      bind-Makes float inputs end (one-Makes float inputs end small)
        λ _ e0. apply-Makes float inputs end small h0 e0

  pub log2-Makes :
      {x : NodeId} {x' : F64}
      → Holds float inputs end x x'
      → Makes float inputs end
          (Arithmetic.log2 x)
          (λ id. Holds float inputs end id (Formula.log2 float x'))
  unfolding Arithmetic.log2 Formula.log2
  log2-Makes h0 = bind-Makes float inputs end (one-Makes float inputs end small) λ _ e0.
      bind-Makes float inputs end (one-Makes float inputs end small) λ _ e1.
        bind-Makes float inputs end (one-Makes float inputs end small) λ _ e2.
          bind-Makes float inputs end (apply-Makes float inputs end small e0 h0) λ _ e3.
            bind-Makes float inputs end (apply-Makes float inputs end small e3 e1)
              λ _ e4. apply-Makes float inputs end small e2 e4

  pub sub-Makes :
      {x y : NodeId} {x' y' : F64}
      → Holds float inputs end x x'
      → Holds float inputs end y y'
      → Makes float inputs end
          (Arithmetic.sub x y)
          (λ id. Holds float inputs end id (Formula.sub float x' y'))
  unfolding Arithmetic.sub Formula.sub
  sub-Makes h0 h1 = bind-Makes float inputs end (log2-Makes h0) λ _ e0.
      bind-Makes float inputs end (exp2-Makes h1) λ _ e1. apply-Makes float inputs end small e0 e1

  pub neg-Makes :
      {x : NodeId} {x' : F64}
      → Holds float inputs end x x'
      → Makes float inputs end
          (Arithmetic.neg x)
          (λ id. Holds float inputs end id (Formula.neg float x'))
  unfolding Arithmetic.neg Formula.neg
  neg-Makes h0 = bind-Makes float inputs end (one-Makes float inputs end small) λ _ e0.
      bind-Makes float inputs end (log2-Makes e0) λ _ e1.
        bind-Makes float inputs end (log2-Makes e1) λ _ e2.
          bind-Makes float inputs end (exp2-Makes h0)
            λ _ e3. apply-Makes float inputs end small e2 e3

  pub neg_real-Makes :
      {x : NodeId} {x' : F64}
      → Holds float inputs end x x'
      → Makes float inputs end
          (Arithmetic.neg_real x)
          (λ id. Holds float inputs end id (Formula.neg_real float x'))
  unfolding Arithmetic.neg_real Formula.neg_real
  neg_real-Makes h0 = bind-Makes float inputs end (exp2-Makes h0) λ _ e0.
      bind-Makes float inputs end (apply-Makes float inputs end small h0 e0) λ _ e1. sub-Makes e1 e0

  pub add-Makes :
      {x y : NodeId} {x' y' : F64}
      → Holds float inputs end x x'
      → Holds float inputs end y y'
      → Makes float inputs end
          (Arithmetic.add x y)
          (λ id. Holds float inputs end id (Formula.add float x' y'))
  unfolding Arithmetic.add Formula.add
  add-Makes h0 h1 = bind-Makes float inputs end (exp2-Makes h0) λ _ e0.
      bind-Makes float inputs end (apply-Makes float inputs end small h0 e0)
        λ _ e1. bind-Makes float inputs end (sub-Makes e1 h1) λ _ e2. sub-Makes e0 e2

  pub mul-Makes :
      {x y : NodeId} {x' y' : F64}
      → Holds float inputs end x x'
      → Holds float inputs end y y'
      → Makes float inputs end
          (Arithmetic.mul x y)
          (λ id. Holds float inputs end id (Formula.mul float x' y'))
  unfolding Arithmetic.mul Formula.mul
  mul-Makes h0 h1 = bind-Makes float inputs end (log2-Makes h0) λ _ e0.
      bind-Makes float inputs end (log2-Makes h1)
        λ _ e1. bind-Makes float inputs end (add-Makes e0 e1) λ _ e2. exp2-Makes e2

  pub scale_signed-Makes :
      {x y : NodeId} {x' y' : F64}
      → Holds float inputs end x x'
      → Holds float inputs end y y'
      → Makes float inputs end
          (Arithmetic.scale_signed x y)
          (λ id. Holds float inputs end id (Formula.scale_signed float x' y'))
  unfolding Arithmetic.scale_signed Formula.scale_signed
  scale_signed-Makes h0 h1 = bind-Makes float inputs end (exp2-Makes h0) λ _ e0.
      bind-Makes float inputs end (apply-Makes float inputs end small h0 e0) λ _ e1.
        bind-Makes float inputs end (mul-Makes e0 h1)
          λ _ e2. bind-Makes float inputs end (mul-Makes e1 h1) λ _ e3. sub-Makes e2 e3

  pub mul_signed-Makes :
      {x y : NodeId} {x' y' : F64}
      → Holds float inputs end x x'
      → Holds float inputs end y y'
      → Makes float inputs end
          (Arithmetic.mul_signed x y)
          (λ id. Holds float inputs end id (Formula.mul_signed float x' y'))
  unfolding Arithmetic.mul_signed Formula.mul_signed
  mul_signed-Makes h0 h1 = bind-Makes float inputs end (exp2-Makes h0) λ _ e0.
      bind-Makes float inputs end (apply-Makes float inputs end small h0 e0) λ _ e1.
        bind-Makes float inputs end (exp2-Makes h1) λ _ e2.
          bind-Makes float inputs end (apply-Makes float inputs end small h1 e2) λ _ e3.
            bind-Makes float inputs end (mul-Makes e0 e2) λ _ e4.
              bind-Makes float inputs end (mul-Makes e1 e3) λ _ e5.
                bind-Makes float inputs end (mul-Makes e0 e3) λ _ e6.
                  bind-Makes float inputs end (mul-Makes e1 e2) λ _ e7.
                    bind-Makes float inputs end (add-Makes e4 e5)
                      λ _ e8. bind-Makes float inputs end (add-Makes e6 e7) λ _ e9. sub-Makes e8 e9

  pub recip-Makes :
      {x : NodeId} {x' : F64}
      → Holds float inputs end x x'
      → Makes float inputs end
          (Arithmetic.recip x)
          (λ id. Holds float inputs end id (Formula.recip float x'))
  unfolding Arithmetic.recip Formula.recip
  recip-Makes h0 =
      bind-Makes float inputs end (log2-Makes h0)
        λ _ e0. bind-Makes float inputs end (neg-Makes e0) λ _ e1. exp2-Makes e1

  pub div-Makes :
      {x y : NodeId} {x' y' : F64}
      → Holds float inputs end x x'
      → Holds float inputs end y y'
      → Makes float inputs end
          (Arithmetic.div x y)
          (λ id. Holds float inputs end id (Formula.div float x' y'))
  unfolding Arithmetic.div Formula.div
  div-Makes h0 h1 = bind-Makes float inputs end (recip-Makes h1) λ _ e0. mul-Makes h0 e0

  pub pow-Makes :
      {x y : NodeId} {x' y' : F64}
      → Holds float inputs end x x'
      → Holds float inputs end y y'
      → Makes float inputs end
          (Arithmetic.pow x y)
          (λ id. Holds float inputs end id (Formula.pow float x' y'))
  unfolding Arithmetic.pow Formula.pow
  pow-Makes h0 h1 =
      bind-Makes float inputs end (log2-Makes h0)
        λ _ e0. bind-Makes float inputs end (mul-Makes h1 e0) λ _ e1. exp2-Makes e1
