-- ===== src/Domain/Transformer/Accepted/Softmax.antt =====
-- The stages of the bounded softmax of crates/domain/src/transformer/bounded_ops.rs, on operands that they accept.
use bml.Prelude.{
  ℕ, ◌+◌, ◌-◌, ◌^◌, ◌≤◌, ◌<◌, ◌≡◌, refl, sym, true, List, [], ◌∷◌, arith, ltb-eq-false, ==_refl,
  length, get_or,
}
use bml.Float.{Float}
use bml.Domain.Ast.{NodeId}
use bml.Domain.Soa.{NodeSoa, len}
use bml.Domain.Transformer.{Build}
use bml.Domain.Transformer.Kept.{Begins}
use bml.Domain.Transformer.Ready.{Ready}
use bml.Domain.Transformer.Operations.{reject}
use bml.Domain.Transformer.Values.{Holds, Makes, bind-Makes}
use bml.Domain.Transformer.Values.Loops.{aligned_nil, aligned_cons, Aligned-length, Aligned-get}
use bml.Domain.Transformer.Values.Programs.{constants-Makes}
use bml.Domain.Transformer.Values.Bounded.{bounded_positive_add-Makes, bounded_positive_mul-Makes}
use bml.Domain.Transformer.Values.OpStages.{softmax_exp-Makes, softmax_inverse-Makes}
use bml.Domain.Transformer.Costs.{Costs, Costs-eq, bind-Costs}
use bml.Domain.Transformer.Costs.Programs.{constants-Costs}
use bml.Domain.Transformer.Costs.Bounded.{bounded_positive_add-Costs, bounded_positive_mul-Costs}
use bml.Domain.Transformer.Costs.Stages.{softmax_exp-Costs, softmax_inverse-Costs}
use bml.Domain.Transformer.Bounded.{invalid_node, u32_max}
use bml.Domain.Transformer.Bounded.OpConfig.{
  kind_softmax, BoundedOpConfig, is_softmax, product_literals, fixed_literals,
}
use bml.Domain.Transformer.Bounded.OpPrograms.{
  softmax_exp_nodes, softmax_reduce_nodes, softmax_sum_nodes, softmax_inverse_nodes,
  softmax_output_nodes, softmax_normalize_nodes, with_literals,
}
use bml.Domain.Transformer.Bounded.Op.{
  softmax_stage_check, softmax_stage, softmax_bounded_exp, softmax_bounded_reduce,
  softmax_bounded_sum, softmax_bounded_inverse, softmax_bounded_output, softmax_bounded_normalize,
}
use bml.Domain.Transformer.Formula.Stages.{softmax_inverse}
use bml.Domain.Transformer.Formula.Within.{times, reciprocal, sum_with, softmax_exp_within}
use bml.Domain.Transformer.Accepted.Literals.{softmax_exp-softmax_exp_within}
use bml.Domain.Transformer.Outcome.{
  HoldAll, Holds-Begins, check_nodes-HoldAll, Outcome, execute-Outcome,
}
use bml.Domain.Transformer.Accepted.Rms.{checked_add-small}

module _ (float : Float) where
  open float use {F64}

  softmax_literals-length :
      (config : BoundedOpConfig float)
      → config.kind ≡ kind_softmax
      → length (fixed_literals float config) ≡ 10
  unfolding fixed_literals product_literals
  softmax_literals-length config e = rw e refl

  is_softmax-kind : is_softmax kind_softmax ≡ true
  unfolding is_softmax
  is_softmax-kind = refl

  module _ (inputs : List F64) (soa : NodeSoa float) (config : BoundedOpConfig float)
      (r : Ready float soa) (kind : config.kind ≡ kind_softmax)
      (room : len float soa + 16384 < 2 ^ 32) where
    abbrev lits : List F64
    lits = fixed_literals float config

    -- A stage on operands of its arity, after its ten literals.
    stage-Outcome :
        (nodes : List NodeId → List NodeId → Build float NodeId) (cost : ℕ) (value : F64)
        {ids : List NodeId} {values : List F64}
        → HoldAll float inputs soa ids values
        → ((c : List NodeId) → Costs (nodes ids c) cost 0)
        → cost ≤ 16000
        → ((end : NodeSoa float) (small : len float end ≤ 2 ^ 32)
            → Begins float soa end
            → (c : List NodeId) → HoldAll float inputs end c lits
            → 10 ≤ length c
            → Makes float inputs end (nodes ids c) (λ id. Holds float inputs end id value))
        → Outcome float soa
            (softmax_stage float nodes (length ids) soa ids config)
            (10 + cost)
            (λ end id. Holds float inputs end id value)
    unfolding softmax_stage softmax_stage_check reject
    stage-Outcome nodes cost value {ids} h costs cheap makes =
        let ten = softmax_literals-length config kind in
        execute-Outcome float inputs soa _ {m = with_literals lits (nodes ids)} {p = 10} _
          (rw
            (
              kind,
              is_softmax-kind,
              ==_refl (length ids),
              check_nodes-HoldAll float invalid_node inputs soa h,
              checked_add-small float (len float soa) 16384 room,
              ltb-eq-false (u32_max - 10) (length soa.const_pool)
                  (omega (arith, r.pool_fits, room)),
            )
            refl)
          r
          (unfold with_literals in
            bind-Costs 10 cost 10 0 (Costs-eq ten ten (constants-Costs lits)) costs)
          (omega (arith, room, cheap))
          λ end small pool b.
            unfold with_literals in
            bind-Makes float inputs end (constants-Makes float inputs end small pool lits)
              λ c hc. makes end small b c hc (omega (arith, ten, Aligned-length hc))

    -- With a configuration of the softmax, on columns with room, the first stage returns the node of the exponential of a score below the maximum.
    pub softmax_bounded_exp-Outcome :
        {score maximum : NodeId} {v m : F64}
        → Holds float inputs soa score v
        → Holds float inputs soa maximum m
        → Outcome float soa
            (softmax_bounded_exp float soa (score ∷ maximum ∷ []) config)
            485
            (λ end id. Holds float inputs end id (softmax_exp_within float config.left v m))
    unfolding softmax_bounded_exp softmax_exp_nodes
    softmax_bounded_exp-Outcome {score} {maximum} {v} {m} h0 h1 =
        stage-Outcome softmax_exp_nodes 475 _ (aligned_cons h0 (aligned_cons h1 aligned_nil))
          (λ c. softmax_exp-Costs c _ _) (omega arith)
          λ end small b c hc size.
            let lit : (i : ℕ)
                → i < 10
                → Holds float inputs end (get_or c i 0) (get_or lits i float.zero) =
              λ i lt. Aligned-get i 0 float.zero hc (omega (arith, size, lt)) in
            rw (sym (softmax_exp-softmax_exp_within float config v m kind)) (
              softmax_exp-Makes float inputs end small hc size (Holds-Begins float inputs r b h0)
                (Holds-Begins float inputs r b h1))

    -- The reduction stage adds the exponential of a score to the total.
    pub softmax_bounded_reduce-Outcome :
        {total score maximum : NodeId} {t v m : F64}
        → Holds float inputs soa total t
        → Holds float inputs soa score v
        → Holds float inputs soa maximum m
        → Outcome float soa
            (softmax_bounded_reduce float soa (total ∷ score ∷ maximum ∷ []) config)
            512
            (λ end id.
              Holds float inputs end id
                (sum_with float t (softmax_exp_within float config.left v m)))
    unfolding softmax_bounded_reduce softmax_reduce_nodes sum_with fixed_literals
    softmax_bounded_reduce-Outcome {total} {score} {maximum} {t} {v} {m} h0 h1 h2 =
        stage-Outcome softmax_reduce_nodes 502 _
          (aligned_cons h0 (aligned_cons h1 (aligned_cons h2 aligned_nil)))
          (λ c.
            bind-Costs 475 27 0 0 (softmax_exp-Costs c _ _)
              λ value. bounded_positive_add-Costs _ value _)
          (omega arith)
          λ end small b c hc size.
            let lit : (i : ℕ)
                → i < 10
                → Holds float inputs end (get_or c i 0) (get_or lits i float.zero) =
              λ i lt. Aligned-get i 0 float.zero hc (omega (arith, size, lt)) in
            rw (sym (softmax_exp-softmax_exp_within float config v m kind)) (
              bind-Makes float inputs end
                (softmax_exp-Makes float inputs end small hc size (Holds-Begins float inputs r b h1)
                  (Holds-Begins float inputs r b h2))
                λ _ e.
                  bounded_positive_add-Makes float inputs end small
                    (Holds-Begins float inputs r b h0) e (lit 1 (omega arith)))

    -- The sum stage adds an exponential to the total.
    pub softmax_bounded_sum-Outcome :
        {total value : NodeId} {t v : F64}
        → Holds float inputs soa total t
        → Holds float inputs soa value v
        → Outcome float soa
            (softmax_bounded_sum float soa (total ∷ value ∷ []) config)
            37
            (λ end id. Holds float inputs end id (sum_with float t v))
    unfolding softmax_bounded_sum softmax_sum_nodes sum_with fixed_literals
    softmax_bounded_sum-Outcome {total} {value} h0 h1 =
        stage-Outcome softmax_sum_nodes 27 _ (aligned_cons h0 (aligned_cons h1 aligned_nil))
          (λ c. bounded_positive_add-Costs _ _ _) (omega arith)
          λ end small b c hc size.
            let lit : (i : ℕ)
                → i < 10
                → Holds float inputs end (get_or c i 0) (get_or lits i float.zero) =
              λ i lt. Aligned-get i 0 float.zero hc (omega (arith, size, lt)) in
            bounded_positive_add-Makes float inputs end small (Holds-Begins float inputs r b h0)
              (Holds-Begins float inputs r b h1) (lit 1 (omega arith))

    -- The inverse stage returns the reciprocal of the total.
    pub softmax_bounded_inverse-Outcome :
        {total : NodeId} {t : F64}
        → Holds float inputs soa total t
        → Outcome float soa
            (softmax_bounded_inverse float soa (total ∷ []) config)
            36
            (λ end id. Holds float inputs end id (reciprocal float t))
    unfolding softmax_bounded_inverse softmax_inverse_nodes softmax_inverse reciprocal
        fixed_literals
    softmax_bounded_inverse-Outcome {total} h0 =
        stage-Outcome softmax_inverse_nodes 26 _ (aligned_cons h0 aligned_nil)
          (λ c. softmax_inverse-Costs c _) (omega arith)
          λ end small b c hc size.
            let lit : (i : ℕ)
                → i < 10
                → Holds float inputs end (get_or c i 0) (get_or lits i float.zero) =
              λ i lt. Aligned-get i 0 float.zero hc (omega (arith, size, lt)) in
            softmax_inverse-Makes float inputs end small hc size (Holds-Begins float inputs r b h0)

    -- With a configuration of the softmax, on columns with room, the output stage returns the node of the exponential
    -- of a score below the maximum, with the constants written from the bound, times the reciprocal; it appends
    -- 526 nodes.
    pub softmax_bounded_output-Outcome :
        {score maximum inverse : NodeId} {v m i : F64}
        → Holds float inputs soa score v
        → Holds float inputs soa maximum m
        → Holds float inputs soa inverse i
        → Outcome float soa
            (softmax_bounded_output float soa (score ∷ maximum ∷ inverse ∷ []) config)
            526
            (λ end id.
              Holds float inputs end id (times float (softmax_exp_within float config.left v m) i))
    unfolding softmax_bounded_output softmax_output_nodes times fixed_literals
    softmax_bounded_output-Outcome {score} {maximum} {inverse} {v} {m} {i} h0 h1 h2 =
        stage-Outcome softmax_output_nodes 516 _
          (aligned_cons h0 (aligned_cons h1 (aligned_cons h2 aligned_nil)))
          (λ c.
            bind-Costs 475 41 0 0 (softmax_exp-Costs c _ _)
              λ value. bounded_positive_mul-Costs value _ _)
          (omega arith)
          λ end small b c hc size.
            let lit : (i : ℕ)
                → i < 10
                → Holds float inputs end (get_or c i 0) (get_or lits i float.zero) =
              λ i lt. Aligned-get i 0 float.zero hc (omega (arith, size, lt)) in
            rw (sym (softmax_exp-softmax_exp_within float config v m kind)) (
              bind-Makes float inputs end
                (softmax_exp-Makes float inputs end small hc size (Holds-Begins float inputs r b h0)
                  (Holds-Begins float inputs r b h1))
                λ _ e.
                  bounded_positive_mul-Makes float inputs end small e
                    (Holds-Begins float inputs r b h2) (lit 0 (omega arith)))

    -- The last stage multiplies an exponential by the reciprocal.
    pub softmax_bounded_normalize-Outcome :
        {value inverse : NodeId} {v i : F64}
        → Holds float inputs soa value v
        → Holds float inputs soa inverse i
        → Outcome float soa
            (softmax_bounded_normalize float soa (value ∷ inverse ∷ []) config)
            51
            (λ end id. Holds float inputs end id (times float v i))
    unfolding softmax_bounded_normalize softmax_normalize_nodes times fixed_literals
    softmax_bounded_normalize-Outcome {value} {inverse} h0 h1 =
        stage-Outcome softmax_normalize_nodes 41 _ (aligned_cons h0 (aligned_cons h1 aligned_nil))
          (λ c. bounded_positive_mul-Costs _ _ _) (omega arith)
          λ end small b c hc size.
            let lit : (i : ℕ)
                → i < 10
                → Holds float inputs end (get_or c i 0) (get_or lits i float.zero) =
              λ i lt. Aligned-get i 0 float.zero hc (omega (arith, size, lt)) in
            bounded_positive_mul-Makes float inputs end small (Holds-Begins float inputs r b h0)
              (Holds-Begins float inputs r b h1) (lit 0 (omega arith))
