-- ===== src/Compiler/Rpn/Linearize/Correct.antt =====
-- The program of `linearize` in crates/compiler/src/rpn.rs against the recursive evaluation of the node.
use bml.Prelude.{
  ℕ, zero, suc, ◌-◌, ◌^◌, ◌≤◌, ◌<◌, ◌≡◌, refl, sym, ap, ◌∙◌, false, Option, none, some, List, [],
  ◌∷◌, ◌++◌, arith, length, get_elem?, replicate, length-replicate,
}
use bml.Float.{Float}
use bml.Domain.Ast.{NodeId, EvalContext}
use bml.Domain.Soa.{NodeSoa, len}
use bml.Domain.Soa.Eval.{IsWellFormed, evaluate_soa}
use bml.Compiler.Rpn.{RpnProgram, is_counted, uses_counter_loops}
use bml.Compiler.Rpn.Evaluate.{plain_op, run_loop, top, evaluate_with_ctx}
use bml.Compiler.Rpn.Straight.{run_all, run_all-append, run_ops-run_all, uses_counter_loops-append}
use bml.Compiler.Rpn.Linearize.{Work, visit_all, initial, collapse, finished, linearize}
use bml.Compiler.Rpn.Linearize.Placed.{free, Good}
use bml.Compiler.Rpn.Linearize.Visit.{visit-Visited}

replicate-none :
    (n id : ℕ) {slot : Option ℕ} → get_elem? (replicate n none) id ≡ some slot → slot ≡ none
replicate-none zero id e = cc
replicate-none (suc n) zero e = cc
replicate-none (suc n) (suc id) e = replicate-none n id e

replicate_at : (n id : ℕ) → id < n → get_elem? (replicate {A = Option ℕ} n none) id ≡ some none
replicate_at zero id lt = absurd (omega (arith, lt))
replicate_at (suc n) zero lt = refl
replicate_at (suc n) (suc id) lt = replicate_at n id (omega (arith, lt))

free-replicate : (n : ℕ) → free (replicate n none) ≡ n
unfolding free
free-replicate zero = refl
free-replicate (suc n) = ap suc (free-replicate n)

collapse-uncounted : (n : ℕ) → uses_counter_loops (collapse n) ≡ false
unfolding collapse uses_counter_loops is_counted
collapse-uncounted zero = refl
collapse-uncounted (suc zero) = refl
collapse-uncounted (suc (suc n)) = collapse-uncounted (suc n)

module _ (float : Float) (ctx : EvalContext float) where
  open float use {F64}

  -- The retained values below the top are dropped.
  collapse-run :
      (s : List F64) (a : F64) (n : ℕ)
      → length s ≡ n
      → run_all float ctx (collapse (suc n)) (a ∷ s) ≡ some (a ∷ [])
  unfolding collapse run_all plain_op
  collapse-run [] a zero e = refl
  collapse-run [] a (suc n) e = absurd (omega (arith, e))
  collapse-run (b ∷ s) a zero e = absurd (omega (arith, e))
  collapse-run (b ∷ s) a (suc n) e = collapse-run s a n (omega (arith, e))

  module _ (soa : NodeSoa float) where
    initial-Good : Good float ctx soa (initial float soa) []
    initial-Good = record {
      runs = unfold run_all in refl;
      uncounted = unfold uses_counter_loops in refl;
      stack_height = refl;
      slots_length = length-replicate (len float soa) none;
      free_slots = omega (arith, free-replicate (len float soa));
      held = λ id h e. absurd (clash (replicate-none (len float soa) id e));
    }
      where
        clash : {h : ℕ} → some h ≡ none → ⊥
        clash e = cc

    -- Work whose stack has the value of the root on top.
    finished-evaluates :
        (work : Work) (stack : List F64) (v : F64)
        → Good float ctx soa work stack
        → get_elem? stack 0 ≡ some v
        → evaluate_with_ctx float ctx (finished float soa work) ≡ some v
    unfolding evaluate_with_ctx finished top
    finished-evaluates work [] v good e = cc
    finished-evaluates work (a ∷ stack) v good e =
        let height : work.height ≡ suc (length stack) = sym good.stack_height in
        let run : run_all float ctx (work.ops ++ collapse work.height) [] ≡ some (a ∷ []) =
          run_all-append float ctx work.ops (collapse work.height) [] good.runs
          ∙ ap (λ n. run_all float ctx (collapse n) (a ∷ stack)) height
          ∙ collapse-run stack a (length stack) refl in
        rw
          (
            uses_counter_loops-append work.ops (collapse work.height) good.uncounted
                (collapse-uncounted work.height),
            run_ops-run_all float ctx (run_loop float ctx 2) (work.ops ++ collapse work.height) []
                run,
            evaluate_with_ctx,
          )
          e

    -- On well-formed columns of at most `2 ^ 32` nodes, the linearization of a node among them ends, within
    -- some fuel, in a program that evaluates in every context to the value of the node, without a panic.
    pub linearize-evaluate_soa :
        (root : NodeId)
        → IsWellFormed float soa
        → len float soa ≤ 2 ^ 32
        → root < len float soa
        → (program : RpnProgram float) × (v : F64) × (fuel : ℕ) × (linearize float soa fuel root
            ≡ some program)
          × (evaluate_soa float ctx (suc root) soa root ≡ some v)
          × (evaluate_with_ctx float ctx program ≡ some v)
    unfolding linearize
    linearize-evaluate_soa root well small among =
        let x =
          visit-Visited float ctx soa well small (suc root) root [] (initial float soa) []
            (omega arith) among initial-Good in
        let (lt, (v, (value, at))) = x.good.held root x.at x.position in
        let bottom : x.left.height - 1 - x.at ≡ 0 =
          omega (arith, x.on_top (replicate_at (len float soa) root among)) in
        (
          finished float soa x.left,
          v,
          x.turns.count,
          rw (x.turns.turned x.turns.count 0 (omega arith), linearize) (unfold visit_all in refl),
          value,
          finished-evaluates x.left x.stack v x.good (ap (get_elem? x.stack) (sym bottom) ∙ at),
        )
