-- ===== src/Domain/Transformer/Costs/Programs.antt =====
-- The nodes that the stages and the whole of the bounded normalization append.
use bml.Prelude.{◌+◌, ◌*◌, ◌≡◌, refl, ap, ◌∙◌, List, arith, length}
use bml.Float.{Float}
use bml.Domain.Ast.{NodeId}
use bml.Domain.Transformer.Costs.{
  Costs, bind-Costs, bind-Costs-when, Costs-eq, one-Costs, constant-Costs, for_each-Costs,
  fold_nodes-Costs, for_zip-Costs, length-for_each,
}
use bml.Domain.Transformer.Costs.Arithmetic.{mul_signed-Costs}
use bml.Domain.Transformer.Costs.Bounded.{bounded_normalize-Costs, bounded_positive_add-Costs}
use bml.Domain.Transformer.Costs.Stages.{
  rms_reduce-Costs, rms_prepare-Costs, rms_weighted-Costs, rms_output-Costs,
}
use bml.Domain.Transformer.Bounded.Programs as Programs

module _ {float : Float} where
  open float use {F64}

  pub constants-Costs :
      (literals : List F64)
      → Costs {float = float} (Programs.constants literals) (length literals) (length literals)
  unfolding Programs.constants
  constants-Costs literals =
      Costs-eq (omega arith) (omega arith) (for_each-Costs _ 1 1 constant-Costs literals)

  module _ (literals : List F64) (size : length literals ≡ 17) where
    seventeen : Costs {float = float} (Programs.constants literals) 17 17
    seventeen = Costs-eq size size (constants-Costs literals)

    pub rms_reduce_stage-Costs :
        (operands : List NodeId)
        → Costs {float = float} (Programs.rms_reduce_stage literals operands) 318 17
    unfolding Programs.rms_reduce_stage
    rms_reduce_stage-Costs operands = bind-Costs 17 301 17 0 seventeen λ c. rms_reduce-Costs c _ _

    pub rms_prepare_stage-Costs :
        (operands : List NodeId)
        → Costs {float = float} (Programs.rms_prepare_stage literals operands) 562 17
    unfolding Programs.rms_prepare_stage
    rms_prepare_stage-Costs operands =
        bind-Costs 17 545 17 0 seventeen
          λ c. bind-Costs 1 544 0 0 one-Costs λ unit. rms_prepare-Costs c _ _

    pub rms_output_stage-Costs :
        (operands : List NodeId)
        → Costs {float = float} (Programs.rms_output_stage literals operands) 599 17
    unfolding Programs.rms_output_stage
    rms_output_stage-Costs operands =
        bind-Costs 17 582 17 0 seventeen λ c. rms_output-Costs c _ _ _ _

    -- The whole takes a number of nodes for each element, and one for the preparation.
    pub rms_norm_bounded_nodes-Costs :
        (operands weights : List NodeId)
        → length operands ≡ length weights
        → Costs {float = float}
            (Programs.rms_norm_bounded_nodes literals operands weights)
            (562 + length weights * 806)
            17
    unfolding Programs.rms_norm_bounded_nodes
    rms_norm_bounded_nodes-Costs operands weights e =
        let w = length weights in
        Costs-eq (omega arith) (omega arith) (
          bind-Costs 17 (545 + w * 806) 17 0 seventeen λ c. Costs-eq (omega arith) (omega arith) (
            bind-Costs 1 (544 + w * 806) 0 0 one-Costs λ unit.
              Costs-eq (omega arith) (omega arith) (
                bind-Costs-when (λ ids. length ids ≡ w) (w * 77) (544 + w * 729) 0 0
                  (λ soa. length-for_each _ operands soa ∙ e)
                  (Costs-eq (ap (λ k. k * 77) e) (omega arith)
                    (for_each-Costs _ 77 0 (λ x. bounded_normalize-Costs x _ _ _ _) operands))
                  λ normalized en. Costs-eq (omega arith) (omega arith) (
                    bind-Costs (w * 224) (544 + w * 505) 0 0
                      (Costs-eq (ap (λ k. k * 224) en) (omega arith) (
                        fold_nodes-Costs _ 224 0
                          (λ total x.
                            bind-Costs 197 27 0 0 (mul_signed-Costs x x)
                              λ square. bounded_positive_add-Costs total square _)
                          _ normalized))
                      λ total.
                        bind-Costs 544 (w * 505) 0 0 (rms_prepare-Costs c unit total) λ prepared.
                          Costs-eq refl (omega arith) (
                            for_zip-Costs _ 505 0 (λ x weight. rms_weighted-Costs c x weight _ _)
                              normalized weights en)))))
