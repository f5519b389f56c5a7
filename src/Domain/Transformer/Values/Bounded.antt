-- ===== src/Domain/Transformer/Values/Bounded.antt =====
-- The arithmetic with declared bounds makes nodes of the values of its formulas.
use bml.Prelude.{◌^◌, ◌≤◌, List}
use bml.Float.{Float}
use bml.Domain.Ast.{NodeId}
use bml.Domain.Soa.{NodeSoa, len}
use bml.Domain.Transformer.Values.{Holds, Makes, bind-Makes}
use bml.Domain.Transformer.Values.Arithmetic.{sub-Makes, log2-Makes, exp2-Makes, mul_signed-Makes}
use bml.Domain.Transformer.Bounded.Arithmetic as Bounded
use bml.Domain.Transformer.Formula.Bounded as Formula

module _ (float : Float) (inputs : List (float.F64)) (end : NodeSoa float)
    (small : len float end ≤ 2 ^ 32) where
  open float use {F64}

  pub bounded_neg-Makes :
      {x c : NodeId} {x' c' : F64}
      → Holds float inputs end x x'
      → Holds float inputs end c c'
      → Makes float inputs end
          (Bounded.bounded_neg x c)
          (λ id. Holds float inputs end id (Formula.bounded_neg float x' c'))
  unfolding Bounded.bounded_neg Formula.bounded_neg
  bounded_neg-Makes h0 h1 =
      bind-Makes float inputs end (sub-Makes float inputs end small h1 h0)
        λ _ e0. sub-Makes float inputs end small e0 h1

  pub bounded_add-Makes :
      {x y c : NodeId} {x' y' c' : F64}
      → Holds float inputs end x x'
      → Holds float inputs end y y'
      → Holds float inputs end c c'
      → Makes float inputs end
          (Bounded.bounded_add x y c)
          (λ id. Holds float inputs end id (Formula.bounded_add float x' y' c'))
  unfolding Bounded.bounded_add Formula.bounded_add
  bounded_add-Makes h0 h1 h2 =
      bind-Makes float inputs end (sub-Makes float inputs end small h2 h0) λ _ e0.
        bind-Makes float inputs end (sub-Makes float inputs end small e0 h1)
          λ _ e1. sub-Makes float inputs end small h2 e1

  pub bounded_positive_add-Makes :
      {x y c : NodeId} {x' y' c' : F64}
      → Holds float inputs end x x'
      → Holds float inputs end y y'
      → Holds float inputs end c c'
      → Makes float inputs end
          (Bounded.bounded_positive_add x y c)
          (λ id. Holds float inputs end id (Formula.bounded_positive_add float x' y' c'))
  unfolding Bounded.bounded_positive_add Formula.bounded_positive_add
  bounded_positive_add-Makes h0 h1 h2 =
      bind-Makes float inputs end (bounded_neg-Makes h1 h2)
        λ _ e0. sub-Makes float inputs end small h0 e0

  pub bounded_positive_mul-Makes :
      {x y c64 : NodeId} {x' y' c64' : F64}
      → Holds float inputs end x x'
      → Holds float inputs end y y'
      → Holds float inputs end c64 c64'
      → Makes float inputs end
          (Bounded.bounded_positive_mul x y c64)
          (λ id. Holds float inputs end id (Formula.bounded_positive_mul float x' y' c64'))
  unfolding Bounded.bounded_positive_mul Formula.bounded_positive_mul
  bounded_positive_mul-Makes h0 h1 h2 =
      bind-Makes float inputs end (log2-Makes float inputs end small h0) λ _ e0.
        bind-Makes float inputs end (log2-Makes float inputs end small h1) λ _ e1.
          bind-Makes float inputs end (bounded_add-Makes e0 e1 h2)
            λ _ e2. exp2-Makes float inputs end small e2

  pub bounded_normalize-Makes :
      {x twice_bound inverse_bound c2 c64 : NodeId} {x' twice_bound' inverse_bound' c2' c64' : F64}
      → Holds float inputs end x x'
      → Holds float inputs end twice_bound twice_bound'
      → Holds float inputs end inverse_bound inverse_bound'
      → Holds float inputs end c2 c2'
      → Holds float inputs end c64 c64'
      → Makes float inputs end (Bounded.bounded_normalize x twice_bound inverse_bound c2 c64) (λ id.
        Holds float inputs end id
          (Formula.bounded_normalize float x' twice_bound' inverse_bound' c2' c64'))
  unfolding Bounded.bounded_normalize Formula.bounded_normalize
  bounded_normalize-Makes h0 h1 h2 h3 h4 =
      bind-Makes float inputs end (bounded_add-Makes h0 h1 h1) λ _ e0.
        bind-Makes float inputs end (bounded_positive_mul-Makes e0 h2 h4)
          λ _ e1. sub-Makes float inputs end small e1 h3

  pub bounded_product-Makes :
      {x y product_bound twice_product_bound c2 c64 : NodeId}
      {x' y' product_bound' twice_product_bound' c2' c64' : F64}
      → Holds float inputs end x x'
      → Holds float inputs end y y'
      → Holds float inputs end product_bound product_bound'
      → Holds float inputs end twice_product_bound twice_product_bound'
      → Holds float inputs end c2 c2'
      → Holds float inputs end c64 c64'
      → Makes float inputs end
          (Bounded.bounded_product x y product_bound twice_product_bound c2 c64)
          (λ id.
            Holds float inputs end id
              (Formula.bounded_product float x' y' product_bound' twice_product_bound' c2' c64'))
  unfolding Bounded.bounded_product Formula.bounded_product
  bounded_product-Makes h0 h1 h2 h3 h4 h5 =
      bind-Makes float inputs end (mul_signed-Makes float inputs end small h0 h1) λ _ e0.
        bind-Makes float inputs end (bounded_add-Makes e0 h4 h4) λ _ e1.
          bind-Makes float inputs end (bounded_positive_mul-Makes e1 h2 h5)
            λ _ e2. sub-Makes float inputs end small e2 h3

  pub product_with_literals-Makes :
      {x y c64 c2 p0 p1 p2 p3 p4 p5 : NodeId} {x' y' c64' c2' p0' p1' p2' p3' p4' p5' : F64}
      → Holds float inputs end x x'
      → Holds float inputs end y y'
      → Holds float inputs end c64 c64'
      → Holds float inputs end c2 c2'
      → Holds float inputs end p0 p0'
      → Holds float inputs end p1 p1'
      → Holds float inputs end p2 p2'
      → Holds float inputs end p3 p3'
      → Holds float inputs end p4 p4'
      → Holds float inputs end p5 p5'
      → Makes float inputs end (Bounded.product_with_literals x y c64 c2 p0 p1 p2 p3 p4 p5) (λ id.
        Holds float inputs end id
          (Formula.product_with_literals float x' y' c64' c2' p0' p1' p2' p3' p4' p5'))
  unfolding Bounded.product_with_literals Formula.product_with_literals
  product_with_literals-Makes h0 h1 h2 h3 h4 h5 h6 h7 h8 h9 =
      bind-Makes float inputs end (bounded_normalize-Makes h0 h4 h5 h3 h2) λ _ e0.
        bind-Makes float inputs end (bounded_normalize-Makes h1 h6 h7 h3 h2)
          λ _ e1. bounded_product-Makes e0 e1 h8 h9 h3 h2
