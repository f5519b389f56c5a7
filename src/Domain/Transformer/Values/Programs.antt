-- ===== src/Domain/Transformer/Values/Programs.antt =====
-- The stages and the whole of the bounded normalization make nodes of the values of their formulas.
use bml.Prelude.{ℕ, ◌^◌, ◌≤◌, ◌<◌, List, [], ◌∷◌, arith, length, get_or}
use bml.Float.{Float}
use bml.Domain.Ast.{NodeId}
use bml.Domain.Soa.{NodeSoa, len}
use bml.Domain.Transformer.Loops.{for_each}
use bml.Domain.Transformer.Values.{Holds, Makes, done-Makes, bind-Makes}
use bml.Domain.Transformer.Values.Primitives.{one-Makes, constant-Makes}
use bml.Domain.Transformer.Values.Arithmetic.{mul_signed-Makes}
use bml.Domain.Transformer.Values.Bounded.{bounded_normalize-Makes, bounded_positive_add-Makes}
use bml.Domain.Transformer.Values.Stages.{
  rms_reduce-Makes, rms_prepare-Makes, rms_weighted-Makes, rms_output-Makes,
}
use bml.Domain.Transformer.Values.Loops.{
  Aligned, aligned_nil, aligned_cons, Aligned-length, Aligned-get, for_each-Makes, for_zip-Makes,
  fold_nodes-Makes,
}
use bml.Domain.Transformer.Bounded.Programs as Programs
use bml.Domain.Transformer.Formula.Stages as Stages
use bml.Domain.Transformer.Formula.Programs as Formula

module _ (float : Float) (inputs : List (float.F64)) (end : NodeSoa float)
    (small : len float end ≤ 2 ^ 32) (small_pool : length end.const_pool ≤ 2 ^ 32) where
  open float use {F64}

  abbrev HoldAll : List NodeId → List F64 → Type 0
  HoldAll ids values = Aligned (Holds float inputs end) ids values

  pub constants-Makes :
      (literals : List F64)
      → Makes float inputs end (Programs.constants literals) (λ c. HoldAll c literals)
  unfolding Programs.constants for_each
  constants-Makes [] = done-Makes float inputs end aligned_nil
  constants-Makes (x ∷ literals) =
      bind-Makes float inputs end (constant-Makes float inputs end small x small_pool) λ _ h.
        bind-Makes float inputs end (constants-Makes literals)
          λ _ rest. done-Makes float inputs end (aligned_cons h rest)

  module _ (literals : List F64) (size : 17 ≤ length literals) where
    pub rms_reduce_stage-Makes :
        {total x : NodeId} {t v : F64}
        → Holds float inputs end total t
        → Holds float inputs end x v
        → Makes float inputs end
            (Programs.rms_reduce_stage literals (total ∷ x ∷ []))
            (λ id. Holds float inputs end id (Stages.rms_reduce float literals t v))
    unfolding Programs.rms_reduce_stage
    rms_reduce_stage-Makes h k =
        bind-Makes float inputs end (constants-Makes literals) λ _ c.
          rms_reduce-Makes float inputs end small c (omega (arith, size, Aligned-length c)) h k

    pub rms_prepare_stage-Makes :
        {total : NodeId} {t : F64}
        → Holds float inputs end total t
        → Makes float inputs end (Programs.rms_prepare_stage literals (total ∷ [])) (λ pair.
          Holds float inputs end pair.0 (Stages.rms_prepare float literals float.one t).0
          × Holds float inputs end pair.1 (Stages.rms_prepare float literals float.one t).1)
    unfolding Programs.rms_prepare_stage
    rms_prepare_stage-Makes h = bind-Makes float inputs end (constants-Makes literals) λ _ c.
        bind-Makes float inputs end (one-Makes float inputs end small) λ _ unit.
          rms_prepare-Makes float inputs end small c (omega (arith, size, Aligned-length c)) unit h

    pub rms_output_stage-Makes :
        {x weight inverse_root shift : NodeId} {v w r s : F64}
        → Holds float inputs end x v
        → Holds float inputs end weight w
        → Holds float inputs end inverse_root r
        → Holds float inputs end shift s
        → Makes float inputs end
            (Programs.rms_output_stage literals (x ∷ weight ∷ inverse_root ∷ shift ∷ []))
            (λ id. Holds float inputs end id (Stages.rms_output float literals v w r s))
    unfolding Programs.rms_output_stage
    rms_output_stage-Makes h k l m = bind-Makes float inputs end (constants-Makes literals) λ _ c.
        rms_output-Makes float inputs end small c (omega (arith, size, Aligned-length c)) h k l m

    pub rms_norm_bounded_nodes-Makes :
        {operands weights : List NodeId} {xs ws : List F64}
        → HoldAll operands xs
        → HoldAll weights ws
        → Makes float inputs end
            (Programs.rms_norm_bounded_nodes literals operands weights)
            (λ ids. HoldAll ids (Formula.rms_norm_bounded float literals xs ws))
    unfolding Programs.rms_norm_bounded_nodes Formula.rms_norm_bounded
    rms_norm_bounded_nodes-Makes hx hw =
        bind-Makes float inputs end (constants-Makes literals) λ c hc.
          let lit : (i : ℕ)
              → i < 17
              → Holds float inputs end (get_or c i 0) (get_or literals i float.zero) =
            λ i lt. Aligned-get i 0 float.zero hc (omega (arith, size, lt, Aligned-length hc)) in
          bind-Makes float inputs end (one-Makes float inputs end small) λ _ unit.
            bind-Makes float inputs end
              (for_each-Makes float inputs end {S = Holds float inputs end} _ _ hx λ x v h.
                bounded_normalize-Makes float inputs end small h (lit 2 (omega arith))
                  (lit 3 (omega arith)) (lit 1 (omega arith)) (lit 0 (omega arith)))
              λ _ normalized.
                bind-Makes float inputs end
                  (fold_nodes-Makes float inputs end {S = Holds float inputs end} _ _ _ _
                    (lit 4 (omega arith)) normalized
                    λ b w x v hb hv.
                      bind-Makes float inputs end (mul_signed-Makes float inputs end small hv hv)
                        λ _ square.
                          bounded_positive_add-Makes float inputs end small hb square
                            (lit 1 (omega arith)))
                  λ _ total.
                    bind-Makes float inputs end
                      (rms_prepare-Makes float inputs end small hc
                        (omega (arith, size, Aligned-length hc)) unit total)
                      λ _ prepared.
                        for_zip-Makes float inputs end {T = Holds float inputs end} _ _ normalized
                          hw
                          λ x v y w h k.
                            rms_weighted-Makes float inputs end small hc
                              (omega (arith, size, Aligned-length hc)) h k prepared.0 prepared.1
