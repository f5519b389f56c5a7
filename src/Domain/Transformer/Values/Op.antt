-- ===== src/Domain/Transformer/Values/Op.antt =====
-- The operations of crates/domain/src/transformer/bounded_ops.rs make nodes of the values of their formulas.
use bml.Prelude.{
  ℕ, zero, suc, ◌+◌, ◌^◌, ◌≤◌, ◌<◌, ◌≡◌, Bool, true, false, List, [], ◌∷◌, map, arith, length,
  get_or, take,
}
use bml.Float.{Float}
use bml.Domain.Ast.{NodeId}
use bml.Domain.Soa.{NodeSoa, len}
use bml.Domain.Transformer.{Build, done, ◌>>=◌}
use bml.Domain.Transformer.Values.{Holds, Makes, done-Makes, bind-Makes}
use bml.Domain.Transformer.Values.Arithmetic.{exp2-Makes}
use bml.Domain.Transformer.Values.Bounded.{
  bounded_neg-Makes, bounded_add-Makes, bounded_positive_add-Makes, bounded_positive_mul-Makes,
  product_with_literals-Makes,
}
use bml.Domain.Transformer.Values.OpStages.{
  softmax_inverse-Makes, bounded_dot_step-Makes, bounded_rotation-Makes, sigmoid_numerator-Makes,
  wide_denominator-Makes, swiglu_output-Makes,
}
use bml.Domain.Transformer.Values.Loops.{
  Aligned, aligned_nil, aligned_cons, Aligned-length, Aligned-get, Aligned-take, for_each-Makes,
  fold_nodes-Makes,
}
use bml.Domain.Transformer.Bounded.OpConfig.{
  Kind, kind_product, kind_add, kind_dot_step, kind_rope, kind_swiglu, kind_softmax,
}
use bml.Domain.Transformer.Bounded.OpPrograms as Programs
use bml.Domain.Transformer.Formula.Bounded as Bounded
use bml.Domain.Transformer.Formula.Stages as Stages
use bml.Domain.Transformer.Formula.Op as Formula

-- How many literals, operands and external values the nodes of a kind read.
unfoldable pub literals_read : Kind → Bool → ℕ
literals_read kind_product wide = 8
literals_read kind_add wide = 3
literals_read kind_dot_step wide = 9
literals_read kind_rope wide = 9
literals_read kind_swiglu true = 25
literals_read kind_swiglu false = 24
literals_read kind_softmax wide = 10

unfoldable pub operands_read : Kind → ℕ → ℕ
operands_read kind_dot_step width = 3
operands_read kind_softmax width = width + 1
operands_read other width = 2

unfoldable pub external_read : Kind → ℕ
external_read kind_rope = 2
external_read other = 0

take_some :
    {A B : Type 0} (f : A → B) (n : ℕ) (xs : List A)
    → 0 < n
    → 0 < length xs
    → 0 < length (map f (take n xs))
take_some f zero xs lt some_x = absurd (omega (arith, lt))
take_some f (suc n) [] lt some_x = absurd (omega (arith, some_x))
take_some f (suc n) (x ∷ xs) lt some_x = omega arith

module _ (float : Float) (inputs : List (float.F64)) (end : NodeSoa float)
    (small : len float end ≤ 2 ^ 32) where
  open float use {F64}

  abbrev HoldAll : List NodeId → List F64 → Type 0
  HoldAll ids values = Aligned (Holds float inputs end) ids values

  -- An operand of a list.
  at :
      {ids : List NodeId} {values : List F64} (i : ℕ)
      → HoldAll ids values
      → i < length ids
      → Holds float inputs end (get_or ids i 0) (get_or values i float.zero)
  at i h lt = Aligned-get i 0 float.zero h lt

  module _ {c : List NodeId} {lits : List F64} (hc : HoldAll c lits) where
    product-Makes :
        {operands : List NodeId} {xs : List F64}
        → 8 ≤ length c
        → HoldAll operands xs
        → 2 ≤ length operands
        → Makes float inputs end (Programs.bounded_product_nodes operands c) (λ id.
          Holds float inputs end id
            (Formula.product float (get_or xs 0 float.zero) (get_or xs 1 float.zero) lits))
    unfolding Programs.bounded_product_nodes Formula.product
    product-Makes size hx enough =
        product_with_literals-Makes float inputs end small (at 0 hx (omega (arith, enough)))
          (at 1 hx (omega (arith, enough))) (at 0 hc (omega (arith, size)))
          (at 1 hc (omega (arith, size))) (at 2 hc (omega (arith, size)))
          (at 3 hc (omega (arith, size))) (at 4 hc (omega (arith, size)))
          (at 5 hc (omega (arith, size))) (at 6 hc (omega (arith, size)))
          (at 7 hc (omega (arith, size)))

    denominator-Makes :
        (wide : Bool) {numerator : NodeId} {n : F64}
        → literals_read kind_swiglu wide ≤ length c
        → Holds float inputs end numerator n
        → Makes float inputs end
            (Programs.denominator_nodes wide numerator c)
            (λ id. Holds float inputs end id (Formula.denominator float wide n lits))
    unfolding Programs.denominator_nodes Formula.denominator literals_read
    denominator-Makes true size h = wide_denominator-Makes float inputs end small hc size h
    denominator-Makes false size h =
        bounded_positive_add-Makes float inputs end small (at 4 hc (omega (arith, size))) h
          (at 1 hc (omega (arith, size)))

    swiglu_size : (wide : Bool) → literals_read kind_swiglu wide ≤ length c → 24 ≤ length c
    unfolding literals_read
    swiglu_size true size = omega (arith, size)
    swiglu_size false size = size

    swiglu-Makes :
        (wide : Bool) {operands : List NodeId} {xs : List F64}
        → literals_read kind_swiglu wide ≤ length c
        → HoldAll operands xs
        → 2 ≤ length operands
        → Makes float inputs end (Programs.bounded_swiglu_nodes wide operands c) (λ id.
          Holds float inputs end id
            (Formula.swiglu float wide (get_or xs 0 float.zero) (get_or xs 1 float.zero) lits))
    unfolding Programs.bounded_swiglu_nodes Formula.swiglu
    swiglu-Makes wide size hx enough =
        bind-Makes float inputs end
          (sigmoid_numerator-Makes float inputs end small hc (swiglu_size wide size)
            (at 0 hx (omega (arith, enough))))
          λ _ numerator.
            bind-Makes float inputs end (denominator-Makes wide size numerator) λ _ denominator.
              swiglu_output-Makes float inputs end small hc (swiglu_size wide size)
                (at 0 hx (omega (arith, enough))) (at 1 hx (omega (arith, enough))) numerator
                denominator

    module _ (size : 10 ≤ length c) where
      -- With the negated maximum, the exponential of the stage.
      shifted_exp-Makes :
          (m : F64) {negative score : NodeId} {v : F64}
          → Holds float inputs end negative (Bounded.bounded_neg float m (get_or lits 2 float.zero))
          → Holds float inputs end score v
          → Makes float inputs end
              (Programs.shifted_exp c negative score)
              (λ id. Holds float inputs end id (Stages.softmax_exp float lits v m))
      unfolding Programs.shifted_exp Stages.softmax_exp
      shifted_exp-Makes m hm hv =
          bind-Makes float inputs end
            (bounded_add-Makes float inputs end small hv hm (at 2 hc (omega (arith, size))))
            λ _ shifted.
              bind-Makes float inputs end
                (product_with_literals-Makes float inputs end small shifted
                  (at 3 hc (omega (arith, size))) (at 0 hc (omega (arith, size)))
                  (at 1 hc (omega (arith, size))) (at 4 hc (omega (arith, size)))
                  (at 5 hc (omega (arith, size))) (at 6 hc (omega (arith, size)))
                  (at 7 hc (omega (arith, size))) (at 8 hc (omega (arith, size)))
                  (at 9 hc (omega (arith, size))))
                λ _ exponent. exp2-Makes float inputs end small exponent

      total-Makes :
          {ids : List NodeId} {values : List F64}
          → 0 < length ids
          → HoldAll ids values
          → Makes float inputs end
              (Programs.softmax_total c ids)
              (λ id. Holds float inputs end id (Formula.total float lits values))
      unfolding Programs.softmax_total Formula.total
      total-Makes lt aligned_nil = absurd (omega (arith, lt))
      total-Makes lt (aligned_cons {x} {v} h rest) =
          fold_nodes-Makes float inputs end {S = Holds float inputs end} _ _ x v h rest
            λ b w y u hb hy.
              bounded_positive_add-Makes float inputs end small hb hy
                (at 1 hc (omega (arith, size)))

      softmax-Makes :
          (width : ℕ) {operands : List NodeId} {xs : List F64}
          → 0 < width
          → HoldAll operands xs
          → length operands ≡ width + 1
          → Makes float inputs end
              (Programs.bounded_softmax_nodes width operands c)
              (λ ids. HoldAll ids (Formula.softmax float width xs lits))
      unfolding Programs.bounded_softmax_nodes Formula.softmax
      softmax-Makes width {operands} {xs} positive hx e =
          bind-Makes float inputs end
            (bounded_neg-Makes float inputs end small (at width hx (omega (arith, e)))
              (at 2 hc (omega (arith, size))))
            λ _ negative.
              bind-Makes float inputs end
                (for_each-Makes float inputs end {S = Holds float inputs end} _ _
                  (Aligned-take width hx) λ x v h. shifted_exp-Makes _ negative h)
                λ exps es.
                  bind-Makes float inputs end
                    (total-Makes
                      (omega (
                        arith,
                        Aligned-length es,
                        take_some
                            (λ x. Stages.softmax_exp float lits x (get_or xs width float.zero))
                            width xs positive (omega (arith, e, Aligned-length hx)),
                      ))
                      es)
                    λ _ sum.
                      bind-Makes float inputs end
                        (softmax_inverse-Makes float inputs end small hc size sum)
                        λ _ inverse.
                          for_each-Makes float inputs end {S = Holds float inputs end} _ _ es
                            λ x v h.
                              bounded_positive_mul-Makes float inputs end small h inverse
                                (at 0 hc (omega (arith, size)))

    single-Makes :
        {m : Build float NodeId} {v : F64}
        → Makes float inputs end m (λ id. Holds float inputs end id v)
        → Makes float inputs end (m >>= λ id. done (id ∷ [])) (λ ids. HoldAll ids (v ∷ []))
    single-Makes make =
        bind-Makes float inputs end make
          λ _ h. done-Makes float inputs end (aligned_cons h aligned_nil)

    -- An operation that is given what it reads.
    pub operation-Makes :
        (kind : Kind) (width : ℕ) (wide : Bool) {operands external : List NodeId} {xs es : List F64}
        → literals_read kind wide ≤ length c
        → 0 < width
        → length operands ≡ operands_read kind width
        → length external ≡ external_read kind
        → HoldAll operands xs
        → HoldAll external es
        → Makes float inputs end
            (Programs.operation_nodes kind width wide operands external c)
            (λ ids. HoldAll ids (Formula.operation float kind width wide xs es lits))
    unfolding Programs.operation_nodes Formula.operation literals_read operands_read external_read
    operation-Makes kind_product width wide size positive e f hx he =
        single-Makes (product-Makes size hx (omega (arith, e)))
    operation-Makes kind_add width wide size positive e f hx he = single-Makes (
        bounded_add-Makes float inputs end small (at 0 hx (omega (arith, e)))
          (at 1 hx (omega (arith, e))) (at 2 hc (omega (arith, size))))
    operation-Makes kind_dot_step width wide size positive e f hx he = single-Makes (
        bounded_dot_step-Makes float inputs end small hc size (at 0 hx (omega (arith, e)))
          (at 1 hx (omega (arith, e))) (at 2 hx (omega (arith, e))))
    operation-Makes kind_rope width wide size positive e f hx he =
        bind-Makes float inputs end
          (bounded_rotation-Makes float inputs end small hc size (at 0 hx (omega (arith, e)))
            (at 1 hx (omega (arith, e))) (at 0 he (omega (arith, f))) (at 1 he (omega (arith, f))))
          λ _ pair.
            done-Makes float inputs end (aligned_cons pair.0 (aligned_cons pair.1 aligned_nil))
    operation-Makes kind_swiglu width wide size positive e f hx he =
        single-Makes (swiglu-Makes wide size hx (omega (arith, e)))
    operation-Makes kind_softmax width wide size positive e f hx he =
        softmax-Makes size width positive hx e
