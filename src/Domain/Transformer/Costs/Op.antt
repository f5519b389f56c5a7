-- ===== src/Domain/Transformer/Costs/Op.antt =====
-- The nodes that the operations of crates/domain/src/transformer/bounded_ops.rs append after their literals.
use bml.Prelude.{
  ℕ, zero, suc, ◌+◌, ◌*◌, ◌≤◌, ◌<◌, ◌≡◌, refl, ap, ◌∙◌, Bool, true, false, List, [], ◌∷◌, arith,
  length, take,
}
use bml.Float.{Float}
use bml.Domain.Ast.{NodeId}
use bml.Domain.Transformer.{Build, done, ◌>>=◌}
use bml.Domain.Transformer.Costs.{
  Costs, done-Costs, bind-Costs, bind-Costs-when, Costs-eq, for_each-Costs, fold_nodes-Costs,
  length-for_each,
}
use bml.Domain.Transformer.Costs.Arithmetic.{exp2-Costs}
use bml.Domain.Transformer.Costs.Bounded.{
  bounded_neg-Costs, bounded_add-Costs, bounded_positive_add-Costs, bounded_positive_mul-Costs,
  product_with_literals-Costs,
}
use bml.Domain.Transformer.Costs.Stages.{
  softmax_inverse-Costs, bounded_dot_step-Costs, bounded_rotation-Costs, sigmoid_numerator-Costs,
  wide_denominator-Costs, swiglu_output-Costs,
}
use bml.Domain.Transformer.Bounded.OpConfig.{
  Kind, kind_product, kind_add, kind_dot_step, kind_rope, kind_swiglu, kind_softmax,
}
use bml.Domain.Transformer.Bounded.OpPrograms as Programs

unfoldable pub denominator_cost : Bool → ℕ
denominator_cost true = 7
denominator_cost false = 27

-- The nodes of a kind; a softmax of a width has an exponential, a sum and a product for each score.
unfoldable pub operation_cost : Kind → ℕ → Bool → ℕ
operation_cost kind_product width wide = 428
operation_cost kind_add width wide = 27
operation_cost kind_dot_step width wide = 455
operation_cost kind_rope width wide = 1784
operation_cost kind_swiglu width wide = 1380 + denominator_cost wide
operation_cost kind_softmax width wide = 17 + width * 525

length-take : {A : Type 0} (n : ℕ) (xs : List A) → n ≤ length xs → length (take n xs) ≡ n
length-take zero xs le = refl
length-take (suc n) [] le = absurd (omega (arith, le))
length-take (suc n) (x ∷ xs) le = ap suc (length-take n xs (omega (arith, le)))

module _ {float : Float} where
  denominator-Costs :
      (wide : Bool) (numerator : NodeId) (c : List NodeId)
      → Costs {float = float}
          (Programs.denominator_nodes wide numerator c)
          (denominator_cost wide)
          0
  unfolding Programs.denominator_nodes denominator_cost
  denominator-Costs true numerator c = wide_denominator-Costs c numerator
  denominator-Costs false numerator c = bounded_positive_add-Costs _ numerator _

  swiglu-Costs :
      (wide : Bool) (operands c : List NodeId)
      → Costs {float = float}
          (Programs.bounded_swiglu_nodes wide operands c)
          (1380 + denominator_cost wide)
          0
  unfolding Programs.bounded_swiglu_nodes
  swiglu-Costs wide operands c = Costs-eq (omega arith) refl (
      bind-Costs 457 (denominator_cost wide + 923) 0 0 (sigmoid_numerator-Costs c _) λ numerator.
        bind-Costs (denominator_cost wide) 923 0 0 (denominator-Costs wide numerator c)
          λ denominator. swiglu_output-Costs c _ _ numerator denominator)

  shifted_exp-Costs :
      (c : List NodeId) (negative score : NodeId)
      → Costs {float = float} (Programs.shifted_exp c negative score) 457 0
  unfolding Programs.shifted_exp
  shifted_exp-Costs c negative score =
      bind-Costs 27 430 0 0 (bounded_add-Costs score negative _) λ shifted.
        bind-Costs 428 2 0 0 (product_with_literals-Costs shifted _ _ _ _ _ _ _ _ _)
          λ exponent. exp2-Costs exponent

  total-Costs :
      (c ids : List NodeId) (n : ℕ)
      → length ids ≡ suc n
      → Costs {float = float} (Programs.softmax_total c ids) (n * 27) 0
  unfolding Programs.softmax_total
  total-Costs c [] n e = absurd (omega (arith, e))
  total-Costs c (first ∷ rest) n e =
      Costs-eq (ap (λ k. k * 27) (rest_length e)) (omega arith) (
        fold_nodes-Costs _ 27 0 (λ total value. bounded_positive_add-Costs total value _) first
          rest)
    where
      rest_length : suc (length rest) ≡ suc n → length rest ≡ n
      rest_length e = omega (arith, e)

  softmax-Costs :
      (n : ℕ) (operands c : List NodeId)
      → length operands ≡ suc n + 1
      → Costs {float = float}
          (Programs.bounded_softmax_nodes (suc n) operands c)
          (17 + suc n * 525)
          0
  unfolding Programs.bounded_softmax_nodes
  softmax-Costs n operands c e =
      let scores = length-take (suc n) operands (omega (arith, e)) in
      Costs-eq (omega arith) refl (
        bind-Costs 18 (suc n * 457 + (n * 27 + (26 + suc n * 41))) 0 0 (bounded_neg-Costs _ _)
          λ negative.
            bind-Costs-when (λ ids. length ids ≡ suc n) (suc n * 457) (n * 27 + (26 + suc n * 41)) 0
              0 (λ soa. length-for_each _ (take (suc n) operands) soa ∙ scores)
              (Costs-eq (ap (λ k. k * 457) scores) (omega arith) (
                for_each-Costs _ 457 0 (λ score. shifted_exp-Costs c negative score)
                  (take (suc n) operands)))
              λ exps es.
                bind-Costs (n * 27) (26 + suc n * 41) 0 0 (total-Costs c exps n es) λ total.
                  bind-Costs 26 (suc n * 41) 0 0 (softmax_inverse-Costs c total) λ inverse.
                    Costs-eq (ap (λ k. k * 41) es) (omega arith) (
                      for_each-Costs _ 41 0 (λ value. bounded_positive_mul-Costs value inverse _)
                        exps))

  single-Costs :
      {m : Build float NodeId} (n : ℕ) → Costs m n 0 → Costs (m >>= λ id. done (id ∷ [])) n 0
  single-Costs n costs =
      Costs-eq (omega arith) refl (bind-Costs n 0 0 0 costs λ id. done-Costs (id ∷ []))

  pub operation-Costs :
      (kind : Kind) (width : ℕ) (wide : Bool) (operands external c : List NodeId)
      → 0 < width
      → (kind ≡ kind_softmax → length operands ≡ width + 1)
      → Costs {float = float}
          (Programs.operation_nodes kind width wide operands external c)
          (operation_cost kind width wide)
          0
  unfolding Programs.operation_nodes Programs.bounded_product_nodes operation_cost
  operation-Costs kind_product width wide operands external c positive e =
      single-Costs 428 (product_with_literals-Costs _ _ _ _ _ _ _ _ _ _)
  operation-Costs kind_add width wide operands external c positive e =
      single-Costs 27 (bounded_add-Costs _ _ _)
  operation-Costs kind_dot_step width wide operands external c positive e =
      single-Costs 455 (bounded_dot_step-Costs c _ _ _)
  operation-Costs kind_rope width wide operands external c positive e =
      bind-Costs 1784 0 0 0 (bounded_rotation-Costs c _ _ _ _) λ pair. done-Costs _
  operation-Costs kind_swiglu width wide operands external c positive e =
      single-Costs (1380 + denominator_cost wide) (swiglu-Costs wide operands c)
  operation-Costs kind_softmax zero wide operands external c positive e =
      absurd (omega (arith, positive))
  operation-Costs kind_softmax (suc n) wide operands external c positive e =
      softmax-Costs n operands c (e refl)
