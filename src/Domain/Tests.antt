-- ===== src/Domain/Tests.antt =====
-- The operations of crates/domain/src/transformer.rs on two variables.
use bml.Prelude.{
  ℕ, zero, suc, ◌+◌, ◌*◌, ◌<◌, ◌≡◌, refl, true, some, List, [], ◌∷◌, arith, get_elem?,
}
use bml.Float.Numbers.{numbers}
use bml.Domain.Ast.{NodeKind, get_var}
use bml.Domain.Soa.{NodeSoa}
use bml.Domain.Soa.Eval.{evaluate_soa, eval_node}
use bml.Domain.Transformer.Ready.{Ready}
use bml.Domain.Transformer.Operations.{matmul, rms_norm, rope, softmax, swiglu}
use bml.Domain.Transformer.Bounded.RmsConfig.{BoundedRmsConfig}
use bml.Domain.Transformer.Bounded.Rms.{rms_norm_bounded}
use bml.Domain.Transformer.Bounded.OpConfig.{
  BoundedOpConfig, kind_dot_step, kind_softmax, input_count, external_count,
}
use bml.Domain.Transformer.Bounded.Op.{operation_bounded, softmax_bounded_output}
use bml.Domain.Transformer.Values.{Holds}
use bml.Domain.Transformer.Values.Loops.{aligned_nil, aligned_cons}
use bml.Domain.Transformer.Costs.Tensor.{sum_cost}
use bml.Domain.Transformer.Formula.Operations as Formula
use bml.Domain.Transformer.Formula.Rms.{normalization}
use bml.Domain.Transformer.Formula.Within.{times, softmax_exp_within, operation_within}
use bml.Domain.Transformer.Accepted.Softmax.{softmax_bounded_output-Outcome}
use bml.Domain.Transformer.Outcome.{HoldAll, Outcome}
use bml.Domain.Transformer.Accepted.Staged.{rms_norm_stages, rms_norm_bounded-rms_norm_stages}
use bml.Domain.Transformer.Accepted.Matmul.{matmul-Outcome}
use bml.Domain.Transformer.Accepted.Tensor.{
  rms_norm-Outcome, rope-Outcome, softmax-Outcome, swiglu-Outcome,
}
use bml.Domain.Transformer.Accepted.Op.{node_count, operation_bounded-Outcome}

abbrev vars : NodeSoa numbers
vars = record {
  const_pool = [];
  kinds = NodeKind.var 0 ∷ NodeKind.var 1 ∷ [];
  lefts = 0 ∷ 0 ∷ [];
  rights = 0 ∷ 0 ∷ [];
  values = 0 ∷ 0 ∷ [];
}

abbrev inputs : List ℕ
inputs = 3 ∷ 4 ∷ []

no_constant : (i c : ℕ) → get_elem? (vars.kinds) i ≡ some (NodeKind.const c) → c < 0
no_constant zero c e = cc
no_constant (suc zero) c e = cc
no_constant (suc (suc i)) c e = cc

vars-Ready : Ready numbers vars
vars-Ready = record {
  balanced = record { lefts_length = refl; rights_length = refl };
  constants_known = no_constant;
  pool_fits = omega arith;
}

first-Holds : Holds numbers inputs vars 0 3
unfolding evaluate_soa eval_node get_var
first-Holds = record { fuel = 1; value = refl }

second-Holds : Holds numbers inputs vars 1 4
unfolding evaluate_soa eval_node get_var
second-Holds = record { fuel = 1; value = refl }

both-Hold : HoldAll numbers inputs vars (0 ∷ 1 ∷ []) (3 ∷ 4 ∷ [])
both-Hold = aligned_cons first-Holds (aligned_cons second-Holds aligned_nil)

matmul-Outcome_example :
    Outcome numbers vars
      (matmul numbers (λ n. true) vars (0 ∷ 1 ∷ []) (0 ∷ 1 ∷ []) 1 2 1)
      (1 * (1 * (2 * 197 + sum_cost 2)))
      (λ end ids.
        HoldAll numbers inputs end ids (Formula.matmul numbers (3 ∷ 4 ∷ []) (3 ∷ 4 ∷ []) 1 2 1))
unfolding sum_cost
matmul-Outcome_example =
    matmul-Outcome numbers inputs vars vars-Ready (λ n. true) 1 2 1 (omega arith) (omega arith)
      (omega arith) refl refl refl (omega arith) both-Hold both-Hold

rms_norm-Outcome_example :
    Outcome numbers vars
      (rms_norm numbers vars (0 ∷ 1 ∷ []) (0 ∷ 1 ∷ []) 5)
      (216 + 2 * 476 + sum_cost 2)
      (λ end ids.
        HoldAll numbers inputs end ids (Formula.rms_norm numbers (3 ∷ 4 ∷ []) (3 ∷ 4 ∷ []) 5))
unfolding sum_cost
rms_norm-Outcome_example =
    rms_norm-Outcome numbers inputs vars vars-Ready 5 (omega arith) refl refl refl (omega arith)
      both-Hold both-Hold

rope-Outcome_example :
    Outcome numbers vars (rope numbers vars (0 ∷ 1 ∷ []) (0 ∷ []) (1 ∷ [])) (1 * 842) (λ end ids.
      HoldAll numbers inputs end ids (Formula.rope numbers (3 ∷ 4 ∷ []) (3 ∷ []) (4 ∷ [])))
rope-Outcome_example =
    rope-Outcome numbers inputs vars vars-Ready refl refl (omega arith) both-Hold
      (aligned_cons first-Holds aligned_nil) (aligned_cons second-Holds aligned_nil)

softmax-Outcome_example :
    Outcome numbers vars
      (softmax numbers vars (0 ∷ 1 ∷ []))
      (21 + 2 * 119 + sum_cost 2)
      (λ end ids. HoldAll numbers inputs end ids (Formula.softmax numbers (3 ∷ 4 ∷ [])))
unfolding sum_cost
softmax-Outcome_example =
    softmax-Outcome numbers inputs vars vars-Ready (omega arith) (omega arith) both-Hold

swiglu-Outcome_example :
    Outcome numbers vars
      (swiglu numbers vars (0 ∷ 1 ∷ []) (0 ∷ 1 ∷ []))
      (2 + 2 * 416)
      (λ end ids. HoldAll numbers inputs end ids (Formula.swiglu numbers (3 ∷ 4 ∷ []) (3 ∷ 4 ∷ [])))
swiglu-Outcome_example =
    swiglu-Outcome numbers inputs vars vars-Ready refl (omega arith) both-Hold both-Hold

abbrev rms_config : BoundedRmsConfig numbers
rms_config = record {
  width = 2;
  epsilon = 2;
  input_bound = 4;
  weight_bound = 4;
  normalized_bound = 3;
  log_variance_bound = 2;
}

rms_norm_bounded-rms_norm_stages_example :
    Outcome numbers vars
      (rms_norm_bounded numbers (λ n. true) vars (0 ∷ 1 ∷ []) (0 ∷ 1 ∷ []) rms_config)
      (562 + 2 * 806)
      (λ end ids.
        HoldAll numbers inputs end ids (normalization numbers rms_config (3 ∷ 4 ∷ []) (3 ∷ 4 ∷ [])))
    × Outcome numbers vars
        (rms_norm_stages numbers rms_config 1 (0 ∷ 1 ∷ []) (0 ∷ 1 ∷ []) vars)
        (562 + 2 * 917)
        (λ end ids.
          HoldAll numbers inputs end ids
            (normalization numbers rms_config (3 ∷ 4 ∷ []) (3 ∷ 4 ∷ [])))
rms_norm_bounded-rms_norm_stages_example =
    rms_norm_bounded-rms_norm_stages numbers inputs rms_config vars vars-Ready (λ n. true) refl refl
      (omega arith) refl second-Holds both-Hold both-Hold

abbrev dot_config : BoundedOpConfig numbers
dot_config = record { kind = kind_dot_step; width = 1; left = 4; right = 4 }

operation_bounded-Outcome_example :
    Outcome numbers vars
      (operation_bounded numbers (λ n. true) vars (0 ∷ 0 ∷ 1 ∷ []) [] dot_config)
      (node_count numbers dot_config)
      (λ end ids.
        HoldAll numbers inputs end ids
          (operation_within numbers kind_dot_step 1 4 4 (3 ∷ 3 ∷ 4 ∷ []) []))
unfolding input_count external_count
operation_bounded-Outcome_example =
    operation_bounded-Outcome numbers inputs vars dot_config vars-Ready (λ n. true) (omega arith)
      refl refl (omega arith) refl (aligned_cons first-Holds both-Hold) aligned_nil

abbrev softmax_config : BoundedOpConfig numbers
softmax_config = record { kind = kind_softmax; width = 2; left = 4; right = 1 }

softmax_bounded_output-Outcome_example :
    Outcome numbers vars
      (softmax_bounded_output numbers vars (0 ∷ 1 ∷ 0 ∷ []) softmax_config)
      526
      (λ end id. Holds numbers inputs end id (times numbers (softmax_exp_within numbers 4 3 4) 3))
softmax_bounded_output-Outcome_example =
    softmax_bounded_output-Outcome numbers inputs vars softmax_config vars-Ready refl (omega arith)
      first-Holds second-Holds first-Holds
