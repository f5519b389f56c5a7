-- ===== src/Domain/Transformer/Accepted/Tensor.antt =====
-- The operations on tensors of crates/domain/src/transformer/operations.rs, on operands that they accept.
use bml.Prelude.{
  ℕ, ◌+◌, ◌*◌, ◌/◌, ◌%◌, ◌^◌, ◌≤◌, ◌<◌, ◌≡◌, refl, sym, ap, ◌∙◌, subst, true, false, List, arith,
  ◌==◌, ==_refl, length,
}
use bml.Float.{Float}
use bml.Domain.Ast.{NodeId}
use bml.Domain.Soa.{NodeSoa, len}
use bml.Domain.Transformer.Ready.{Ready}
use bml.Domain.Transformer.Operations.{
  invalid_node, reject, check_operands, rms_norm, rope, softmax, swiglu,
}
use bml.Domain.Transformer.Operations.Programs.{
  rms_norm_nodes, rope_nodes, softmax_nodes, swiglu_nodes,
}
use bml.Domain.Transformer.Values.Loops.{Aligned-length}
use bml.Domain.Transformer.Values.Operations.{
  rms_norm_nodes-Makes, rope_nodes-Makes, softmax_nodes-Makes, swiglu_nodes-Makes,
}
use bml.Domain.Transformer.Costs.{Costs}
use bml.Domain.Transformer.Costs.Tensor.{
  sum_cost, sum_pool, rms_norm_nodes-Costs, rope_nodes-Costs, softmax_nodes-Costs,
  swiglu_nodes-Costs,
}
use bml.Domain.Transformer.Formula.Operations as Formula
use bml.Domain.Transformer.Outcome.{
  HoldAll, HoldAll-Begins, check_nodes-HoldAll, Outcome, execute-Outcome,
}

not_zero : (n : ℕ) → 0 < n → (n == 0) ≡ false
not_zero n lt = ground arith

even : (n : ℕ) → (n * 2 % 2) ≡ 0
even n = omega arith

half : (n : ℕ) → (n * 2 / 2) ≡ n
half n = omega arith

module _ (float : Float) where
  open float use {F64}

  module _ (inputs : List F64) (soa : NodeSoa float) (r : Ready float soa) where
    -- The normalization accepts equally many operands and weights, at least one, with a finite positive
    -- epsilon, when the columns have room, and its outputs hold the elements by the inverse root of the mean of
    -- the squares and the weights.
    pub rms_norm-Outcome :
        (epsilon : F64) {operands weights : List NodeId} {xs ws : List F64}
        → 0 < length ws
        → length xs ≡ length ws
        → float.is_finite epsilon ≡ true
        → float.le epsilon float.zero ≡ false
        → len float soa + (216 + length ws * 476 + sum_cost (length ws)) ≤ 2 ^ 32
        → HoldAll float inputs soa operands xs
        → HoldAll float inputs soa weights ws
        → Outcome float soa
            (rms_norm float soa operands weights epsilon)
            (216 + length ws * 476 + sum_cost (length ws))
            (λ end ids. HoldAll float inputs end ids (Formula.rms_norm float xs ws epsilon))
    unfolding rms_norm reject check_operands
    rms_norm-Outcome epsilon {operands} {weights} {xs} {ws} some_weight e finite positive space hx
          hw =
        let ew = Aligned-length hw in
        let eo : length operands ≡ length ws = Aligned-length hx ∙ e in
        execute-Outcome float inputs soa _ {m = rms_norm_nodes operands weights epsilon} _
          (rw (eo, ew)
            (rw
              (
                not_zero (length ws) some_weight,
                ==_refl (length ws),
                finite,
                positive,
                check_nodes-HoldAll float invalid_node inputs soa hx,
                check_nodes-HoldAll float invalid_node inputs soa hw,
              )
              refl))
          r
          (subst
            (λ n.
              Costs (rms_norm_nodes {float = float} operands weights epsilon)
                (216 + n * 476 + sum_cost n) (3 + sum_pool n))
            ew (rms_norm_nodes-Costs operands weights epsilon (eo ∙ sym ew)))
          space
          λ end small pool b.
            rms_norm_nodes-Makes float inputs end small pool epsilon
              (HoldAll-Begins float inputs r b hx) (HoldAll-Begins float inputs r b hw)

    -- The rotation accepts pairs with a cosine and a sine for each, when the columns have room, and its outputs
    -- hold the rotated pairs.
    pub rope-Outcome :
        {operands cosines sines : List NodeId} {xs cs ss : List F64}
        → length xs ≡ length ss * 2
        → length cs ≡ length ss
        → len float soa + length ss * 842 ≤ 2 ^ 32
        → HoldAll float inputs soa operands xs
        → HoldAll float inputs soa cosines cs
        → HoldAll float inputs soa sines ss
        → Outcome float soa
            (rope float soa operands cosines sines)
            (length ss * 842)
            (λ end ids. HoldAll float inputs end ids (Formula.rope float xs cs ss))
    unfolding rope reject check_operands
    rope-Outcome {operands} {cosines} {sines} {xs} {cs} {ss} e f space hx hc hs =
        let es = Aligned-length hs in
        let ec : length cosines ≡ length ss = Aligned-length hc ∙ f in
        let eo : length operands ≡ length ss * 2 = Aligned-length hx ∙ e in
        execute-Outcome float inputs soa _ {m = rope_nodes operands cosines sines} _
          (rw (eo, ec, es)
            (rw
              (
                even (length ss),
                half (length ss),
                ==_refl (length ss),
                check_nodes-HoldAll float invalid_node inputs soa hx,
                check_nodes-HoldAll float invalid_node inputs soa hc,
                check_nodes-HoldAll float invalid_node inputs soa hs,
              )
              refl))
          r
          (subst (λ n. Costs (rope_nodes {float = float} operands cosines sines) (n * 842) 0) es
            (rope_nodes-Costs operands cosines sines (eo ∙ ap (λ n. n * 2) (sym es)) (ec ∙ sym es)))
          space
          λ end small pool b.
            rope_nodes-Makes float inputs end small pool (HoldAll-Begins float inputs r b hx)
              (HoldAll-Begins float inputs r b hc) (HoldAll-Begins float inputs r b hs)

    -- The softmax accepts at least one operand when the columns have room, and its outputs hold the
    -- exponentials by the reciprocal of their sum.
    pub softmax-Outcome :
        {operands : List NodeId} {xs : List F64}
        → 0 < length xs
        → len float soa + (21 + length xs * 119 + sum_cost (length xs)) ≤ 2 ^ 32
        → HoldAll float inputs soa operands xs
        → Outcome float soa
            (softmax float soa operands)
            (21 + length xs * 119 + sum_cost (length xs))
            (λ end ids. HoldAll float inputs end ids (Formula.softmax float xs))
    unfolding softmax reject check_operands
    softmax-Outcome {operands} {xs} some_operand space hx =
        let eo = Aligned-length hx in
        execute-Outcome float inputs soa _ {m = softmax_nodes operands} _
          (rw eo (
            rw
              (
                not_zero (length xs) some_operand,
                check_nodes-HoldAll float invalid_node inputs soa hx,
              )
              refl))
          r
          (subst
            (λ n.
              Costs (softmax_nodes {float = float} operands) (21 + n * 119 + sum_cost n)
                (1 + sum_pool n))
            eo (softmax_nodes-Costs operands))
          space
          λ end small pool b.
            softmax_nodes-Makes float inputs end small pool (HoldAll-Begins float inputs r b hx)

    -- The gated unit accepts equally many gates and operands when the columns have room, and its outputs hold
    -- the gates times their sigmoids times the operands.
    pub swiglu-Outcome :
        {gate up : List NodeId} {gs us : List F64}
        → length gs ≡ length us
        → len float soa + (2 + length us * 416) ≤ 2 ^ 32
        → HoldAll float inputs soa gate gs
        → HoldAll float inputs soa up us
        → Outcome float soa
            (swiglu float soa gate up)
            (2 + length us * 416)
            (λ end ids. HoldAll float inputs end ids (Formula.swiglu float gs us))
    unfolding swiglu reject check_operands
    swiglu-Outcome {gate} {up} {gs} {us} e space hg hu =
        let eu = Aligned-length hu in
        let eg : length gate ≡ length us = Aligned-length hg ∙ e in
        execute-Outcome float inputs soa _ {m = swiglu_nodes gate up} _
          (rw (eg, eu)
            (rw
              (
                ==_refl (length us),
                check_nodes-HoldAll float invalid_node inputs soa hg,
                check_nodes-HoldAll float invalid_node inputs soa hu,
              )
              refl))
          r
          (subst (λ n. Costs (swiglu_nodes {float = float} gate up) (2 + n * 416) 1) eu
            (swiglu_nodes-Costs gate up (eg ∙ sym eu)))
          space
          λ end small pool b.
            swiglu_nodes-Makes float inputs end small pool (HoldAll-Begins float inputs r b hg)
              (HoldAll-Begins float inputs r b hu)
