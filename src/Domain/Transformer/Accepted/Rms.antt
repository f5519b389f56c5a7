-- ===== src/Domain/Transformer/Accepted/Rms.antt =====
-- The stages of the bounded normalization of crates/domain/src/transformer/bounded.rs, and the whole, on
-- operands that they accept.
use bml.Prelude.{
  ℕ, ◌+◌, ◌-◌, ◌*◌, ◌^◌, ◌<◌, ◌≡◌, refl, sym, ◌∙◌, subst, Bool, true, false, some, List, [], ◌∷◌,
  arith, ltb-eq-false, ==_refl, length, Result, ok, ◌>>◌,
}
use bml.Float.{Float}
use bml.Domain.Ast.{NodeId}
use bml.Domain.Soa.{NodeSoa, len}
use bml.Domain.Transformer.Ready.{Ready}
use bml.Domain.Transformer.Operations.{checked_mul, checked_add, reject}
use bml.Domain.Transformer.Values.{Holds}
use bml.Domain.Transformer.Values.Loops.{aligned_nil, aligned_cons, Aligned-length, Aligned-append}
use bml.Domain.Transformer.Values.Programs.{
  rms_reduce_stage-Makes, rms_prepare_stage-Makes, rms_output_stage-Makes,
  rms_norm_bounded_nodes-Makes,
}
use bml.Domain.Transformer.Costs.{Costs}
use bml.Domain.Transformer.Costs.Programs.{
  rms_reduce_stage-Costs, rms_prepare_stage-Costs, rms_output_stage-Costs,
  rms_norm_bounded_nodes-Costs,
}
use bml.Domain.Transformer.Bounded.{invalid_node, u32_max, too_large, stage_check}
use bml.Domain.Transformer.Bounded.Programs.{rms_norm_bounded_nodes}
use bml.Domain.Transformer.Bounded.RmsConfig.{BoundedRmsConfig, fixed_literals}
use bml.Domain.Transformer.Bounded.Rms.{
  rms_norm_bounded_reduce, rms_norm_bounded_prepare, rms_norm_bounded_output, rms_norm_bounded,
  room,
}
use bml.Domain.Transformer.Formula.Within.{unit, reciprocal}
use bml.Domain.Transformer.Formula.Rms.{add_square, root_mean, shift_by, weighted, normalization}
use bml.Domain.Transformer.Accepted.Literals.{
  rms_reduce-add_square, rms_prepare-reciprocal, rms_prepare-shift_by, rms_output-weighted,
  rms_norm_bounded-normalization,
}
use bml.Domain.Transformer.Outcome.{
  HoldAll, Holds-Begins, HoldAll-Begins, check_nodes-HoldAll, Outcome, execute-Outcome,
}

pub >>-passed :
    {E T : Type 0} {first : Result E (Unit {0})} {m : T} → first ≡ ok tt → (first >> ok m) ≡ ok m
>>-passed e = rw e refl

module _ (float : Float) where
  open float use {F64}

  fixed_literals-length :
      (config : BoundedRmsConfig float) → length (fixed_literals float config) ≡ 17
  unfolding fixed_literals
  fixed_literals-length config = refl

  -- A sum within 32 bits is not too large.
  pub checked_add-small : (a b : ℕ) → a + b < 2 ^ 32 → too_large (checked_add a b) ≡ false
  unfolding checked_add too_large
  checked_add-small a b lt = ground arith

  pub checked_mul-some : (a b : ℕ) → a * b < 2 ^ 64 → checked_mul a b ≡ some (a * b)
  unfolding checked_mul
  checked_mul-some a b lt = ground arith

  pub checked_add-some : (a b : ℕ) → a + b < 2 ^ 64 → checked_add a b ≡ some (a + b)
  unfolding checked_add
  checked_add-some a b lt = ground arith

  pub room-small :
      (soa : NodeSoa float) (width : ℕ)
      → len float soa + width * 4096 + 16384 < 2 ^ 32
      → too_large (room float soa width) ≡ false
  unfolding room
  room-small soa width lt = rw (checked_mul-some width 4096 (omega (arith, lt))) (
      rw (checked_add-some (width * 4096) 16384 (omega (arith, lt)))
        (checked_add-small (width * 4096 + 16384) (len float soa) (omega (arith, lt))))

  module _ (inputs : List F64) (soa : NodeSoa float) (config : BoundedRmsConfig float)
      (r : Ready float soa) where
    pub stage_check-accepts :
        {ids : List NodeId} {values : List F64}
        → len float soa + 16384 < 2 ^ 32
        → HoldAll float inputs soa ids values
        → stage_check float soa ids (length ids) ≡ ok tt
    unfolding stage_check reject
    stage_check-accepts {ids} room h =
        rw
          (
            ==_refl (length ids),
            check_nodes-HoldAll float invalid_node inputs soa h,
            checked_add-small (len float soa) 16384 room,
          )
          refl

    -- On columns with room, the reduction stage returns a node, whose value is the total with the
    -- square of the normalized element; it appends 318 nodes.
    pub rms_norm_bounded_reduce-Outcome :
        {total x : NodeId} {t v : F64}
        → len float soa + 16384 < 2 ^ 32
        → Holds float inputs soa total t
        → Holds float inputs soa x v
        → Outcome float soa
            (rms_norm_bounded_reduce float soa (total ∷ x ∷ []) config)
            318
            (λ end id.
              Holds float inputs end id
                (add_square float config t (unit float config.input_bound v)))
    unfolding rms_norm_bounded_reduce
    rms_norm_bounded_reduce-Outcome {total} {x} {t} {v} room h k =
        execute-Outcome float inputs soa _ _
          (>>-passed (stage_check-accepts room (aligned_cons h (aligned_cons k aligned_nil)))) r
          (rms_reduce_stage-Costs (fixed_literals float config) (fixed_literals-length config)
            (total ∷ x ∷ []))
          (omega (arith, room))
          λ end small pool b. rw (sym (rms_reduce-add_square float config t v)) (
            rms_reduce_stage-Makes float inputs end small pool (fixed_literals float config)
              (omega (arith, fixed_literals-length config)) (Holds-Begins float inputs r b h)
              (Holds-Begins float inputs r b k))

    -- On columns with room, the preparation stage returns the nodes of the inverse root and of the
    -- shift of the total; it appends 562 nodes.
    pub rms_norm_bounded_prepare-Outcome :
        {total : NodeId} {t : F64}
        → len float soa + 16384 < 2 ^ 32
        → Holds float inputs soa total t
        → Outcome float soa
            (rms_norm_bounded_prepare float soa (total ∷ []) config)
            562
            (λ end pair.
              Holds float inputs end pair.0 (reciprocal float (root_mean float config t))
              × Holds float inputs end pair.1 (shift_by float config (root_mean float config t)))
    unfolding rms_norm_bounded_prepare
    rms_norm_bounded_prepare-Outcome {total} {t} room h =
        execute-Outcome float inputs soa _ _
          (>>-passed (stage_check-accepts room (aligned_cons h aligned_nil))) r
          (rms_prepare_stage-Costs (fixed_literals float config) (fixed_literals-length config)
            (total ∷ []))
          (omega (arith, room))
          λ end small pool b.
            rw
              (
                sym (rms_prepare-reciprocal float config t),
                sym (rms_prepare-shift_by float config t),
              )
              (rms_prepare_stage-Makes float inputs end small pool (fixed_literals float config)
                (omega (arith, fixed_literals-length config)) (Holds-Begins float inputs r b h))

    -- On columns with room, the output stage returns the node of the weighted output of an element;
    -- it appends 599 nodes.
    pub rms_norm_bounded_output-Outcome :
        {x weight inverse_root shift : NodeId} {v w i s : F64}
        → len float soa + 16384 < 2 ^ 32
        → Holds float inputs soa x v
        → Holds float inputs soa weight w
        → Holds float inputs soa inverse_root i
        → Holds float inputs soa shift s
        → Outcome float soa
            (rms_norm_bounded_output float soa (x ∷ weight ∷ inverse_root ∷ shift ∷ []) config)
            599
            (λ end id.
              Holds float inputs end id
                (weighted float config i s (unit float config.input_bound v) w))
    unfolding rms_norm_bounded_output
    rms_norm_bounded_output-Outcome {x} {weight} {inverse_root} {shift} {v} {w} {i} {s} room h k l
          m =
        execute-Outcome float inputs soa _ _
          (>>-passed (
            stage_check-accepts room
              (aligned_cons h (aligned_cons k (aligned_cons l (aligned_cons m aligned_nil))))))
          r
          (rms_output_stage-Costs (fixed_literals float config) (fixed_literals-length config)
            (x ∷ weight ∷ inverse_root ∷ shift ∷ []))
          (omega (arith, room))
          λ end small pool b. rw (sym (rms_output-weighted float config v w i s)) (
            rms_output_stage-Makes float inputs end small pool (fixed_literals float config)
              (omega (arith, fixed_literals-length config)) (Holds-Begins float inputs r b h)
              (Holds-Begins float inputs r b k) (Holds-Begins float inputs r b l)
              (Holds-Begins float inputs r b m))

    -- When the columns have room and the allocator answers for the width, the normalization accepts operands and
    -- weights of that width. Its outputs hold the normalization of the operands by the constants of the configuration:
    -- the total of the squares from the scaled epsilon, the root of the mean, and each element over the root times
    -- its weight. It appends 562 nodes, and 806 for each element.
    pub rms_norm_bounded-Outcome :
        (reserve : ℕ → Bool) {operands weights : List NodeId} {xs ws : List F64}
        → length xs ≡ config.width
        → length ws ≡ config.width
        → len float soa + config.width * 4096 + 16384 < 2 ^ 32
        → reserve config.width ≡ true
        → HoldAll float inputs soa operands xs
        → HoldAll float inputs soa weights ws
        → Outcome float soa
            (rms_norm_bounded float reserve soa operands weights config)
            (562 + config.width * 806)
            (λ end ids. HoldAll float inputs end ids (normalization float config xs ws))
    unfolding rms_norm_bounded reject
    rms_norm_bounded-Outcome reserve {operands} {weights} {xs} {ws} ex ew space free hx hw =
        let eo = Aligned-length hx ∙ ex in
        let ev = Aligned-length hw ∙ ew in
        execute-Outcome float inputs soa _
          {m = rms_norm_bounded_nodes (fixed_literals float config) operands weights} {p = 17} _
          (rw
            (
              eo,
              ev,
              ==_refl config.width,
              check_nodes-HoldAll float invalid_node inputs soa (Aligned-append hx hw),
              room-small soa config.width space,
              ltb-eq-false (u32_max - 17) (length soa.const_pool) (omega (arith, r.pool_fits)),
              free,
            )
            refl)
          r
          (subst
            (λ n.
              Costs
                (rms_norm_bounded_nodes {float = float} (fixed_literals float config) operands
                  weights)
                (562 + n * 806) 17)
            ev
            (rms_norm_bounded_nodes-Costs (fixed_literals float config)
              (fixed_literals-length config) operands weights (eo ∙ sym ev)))
          (omega (arith, space))
          λ end small pool b. rw (sym (rms_norm_bounded-normalization float config xs ws)) (
            rms_norm_bounded_nodes-Makes float inputs end small pool (fixed_literals float config)
              (omega (arith, fixed_literals-length config)) (HoldAll-Begins float inputs r b hx)
              (HoldAll-Begins float inputs r b hw))
