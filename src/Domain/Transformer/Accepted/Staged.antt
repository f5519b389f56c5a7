-- ===== src/Domain/Transformer/Accepted/Staged.antt =====
-- The stages of crates/domain/src/transformer/bounded.rs called in their order on one set of columns, and the
-- whole normalization.
use bml.Prelude.{
  ℕ, ◌+◌, ◌*◌, ◌^◌, ◌<◌, ◌≡◌, refl, sym, ◌∙◌, Bool, true, List, [], ◌∷◌, map, arith, length, Result,
}
use bml.Float.{Float}
use bml.Domain.Ast.{NodeId}
use bml.Domain.Soa.{NodeSoa, len}
use bml.Domain.Transformer.Ready.{Ready}
use bml.Domain.Transformer.Loops.{zip_with, fold, fold-map, zip_with-map}
use bml.Domain.Transformer.Values.{Holds}
use bml.Domain.Transformer.Values.Loops.{Aligned-length}
use bml.Domain.Transformer.Bounded.{BoundedBuildError}
use bml.Domain.Transformer.Bounded.RmsConfig.{BoundedRmsConfig}
use bml.Domain.Transformer.Bounded.Rms.{rms_norm_bounded_prepare, rms_norm_bounded}
use bml.Domain.Transformer.Formula.Within.{unit, reciprocal}
use bml.Domain.Transformer.Formula.Rms.{
  scaled_epsilon, add_square, total_square, root_mean, shift_by, weighted, normalization,
}
use bml.Domain.Transformer.Outcome.{HoldAll, HoldAll-Begins, Outcome}
use bml.Domain.Transformer.Accepted.Rms.{rms_norm_bounded_prepare-Outcome, rms_norm_bounded-Outcome}
use bml.Domain.Transformer.Accepted.StageLoops.{
  and_then, and_then-Outcome, Outcome-eq, reduce_all, output_all, reduce_all-Outcome,
  output_all-Outcome,
}

module _ (float : Float) where
  open float use {F64}

  abbrev Answer : Type 0 → Type 0
  Answer A = Result BoundedBuildError A × NodeSoa float

  -- The stages in their order.
  pub rms_norm_stages :
      BoundedRmsConfig float
      → NodeId
      → List NodeId
      → List NodeId
      → NodeSoa float
      → Answer (List NodeId)
  rms_norm_stages config start operands weights soa =
      and_then float (reduce_all float config operands start soa) λ total columns.
        and_then float (rms_norm_bounded_prepare float columns (total ∷ []) config)
          λ roots end. output_all float config roots.0 roots.1 operands weights end

  module _ (inputs : List F64) (config : BoundedRmsConfig float) where
    -- The stages compute the normalization of the units.
    stages-normalization :
        (xs ws : List F64)
        → (let root = root_mean float config (
              fold
                (λ t x. add_square float config t (unit float config.input_bound x))
                (scaled_epsilon float config)
                xs) in
            zip_with
              (λ x w.
                weighted float config
                  (reciprocal float root)
                  (shift_by float config root)
                  (unit float config.input_bound x)
                  w)
              xs
              ws)
          ≡ normalization float config xs ws
    unfolding normalization total_square
    stages-normalization xs ws =
        rw
          (
            sym (
                fold-map (add_square float config) (unit float config.input_bound)
                  (scaled_epsilon float config) xs),
            sym (
                zip_with-map
                  (weighted float config
                    (reciprocal float (
                      root_mean float config
                        (total_square float config (map (unit float config.input_bound) xs))))
                    (shift_by float config (
                      root_mean float config
                        (total_square float config (map (unit float config.input_bound) xs)))))
                  (unit float config.input_bound) xs ws),
          )
          refl

    -- The stages in their order, from a node of the scaled epsilon.
    rms_norm_stages-Outcome :
        (soa : NodeSoa float) (r : Ready float soa) (operands weights : List NodeId)
        (xs ws : List F64) (start : NodeId)
        → length xs ≡ length ws
        → len float soa + length operands * 917 + 16946 < 2 ^ 32
        → Holds float inputs soa start (scaled_epsilon float config)
        → HoldAll float inputs soa operands xs
        → HoldAll float inputs soa weights ws
        → Outcome float soa
            (rms_norm_stages config start operands weights soa)
            (562 + length operands * 917)
            (λ end ids. HoldAll float inputs end ids (normalization float config xs ws))
    unfolding rms_norm_stages
    rms_norm_stages-Outcome soa r operands weights xs ws start e room hs hx hw =
        rw (sym (stages-normalization xs ws)) (
          Outcome-eq float {m = 562 + length operands * 917} (omega arith) (
            and_then-Outcome float soa (reduce_all float config operands start soa) _
              (length operands * 318) (562 + length operands * 599) _ _
              (reduce_all-Outcome float inputs config soa r operands xs start _
                (omega (arith, room)) hs hx)
              λ columns total ready begins count held.
                and_then-Outcome float columns
                  (rms_norm_bounded_prepare float columns (total ∷ []) config) _ 562
                  (length operands * 599) _ _
                  (rms_norm_bounded_prepare-Outcome float inputs columns config ready
                    (omega (arith, room, count)) held)
                  λ end roots steady kept size both.
                    output_all-Outcome float inputs config end steady operands weights xs ws roots.0
                      roots.1 _ _ e (omega (arith, room, count, size)) both.0 both.1
                      (HoldAll-Begins float inputs ready kept
                        (HoldAll-Begins float inputs r begins hx))
                      (HoldAll-Begins float inputs ready kept
                        (HoldAll-Begins float inputs r begins hw))))

    -- On columns with room for both, with an allocator that answers for the width, and from a node of the scaled
    -- epsilon, the whole normalization and the sequence of its stages both accept operands and weights of the width
    -- that have values. The sequence is the reduction for each operand, the preparation, and the output for each
    -- operand and weight. The outputs of both hold the normalization of the values by the constants of the
    -- configuration: the total of the squares from the scaled epsilon, the root of the mean, and each element over
    -- the root times its weight. The whole appends 562 nodes and 806 for each element, and the stages 562 and 917.
    pub rms_norm_bounded-rms_norm_stages :
        (soa : NodeSoa float)
        → Ready float soa
        → (reserve : ℕ → Bool) {operands weights : List NodeId} {xs ws : List F64} {start : NodeId}
        → length xs ≡ config.width
        → length ws ≡ config.width
        → len float soa + config.width * 4096 + 16946 < 2 ^ 32
        → reserve config.width ≡ true
        → Holds float inputs soa start (scaled_epsilon float config)
        → HoldAll float inputs soa operands xs
        → HoldAll float inputs soa weights ws
        → Outcome float soa
            (rms_norm_bounded float reserve soa operands weights config)
            (562 + config.width * 806)
            (λ end ids. HoldAll float inputs end ids (normalization float config xs ws))
          × Outcome float soa
              (rms_norm_stages config start operands weights soa)
              (562 + config.width * 917)
              (λ end ids. HoldAll float inputs end ids (normalization float config xs ws))
    rms_norm_bounded-rms_norm_stages soa r reserve {operands} {weights} {xs} {ws} {start} ex ew room
          free hs hx hw =
        let eo = Aligned-length hx ∙ ex in
        (
          rms_norm_bounded-Outcome float inputs soa config r reserve ex ew (omega (arith, room))
              free hx hw,
          Outcome-eq float (omega (arith, eo)) (
              rms_norm_stages-Outcome soa r operands weights xs ws start (ex ∙ sym ew)
                (omega (arith, room, eo)) hs hx hw),
        )
