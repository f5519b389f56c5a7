-- ===== src/Compiler/Rpn/Straight.antt =====
-- Linear code without loops, as `linearize` of crates/compiler/src/rpn.rs makes it, runs in order.
use bml.Prelude.{
  ℕ, zero, suc, ◌≡◌, refl, ap, ◌∙◌, Bool, true, false, ◌||◌, Option, none, some, List, [], ◌∷◌,
  ◌++◌, length,
}
use bml.Float.{Float}
use bml.Domain.Ast.{EvalContext}
use bml.Compiler.Rpn.{
  RpnOp, one, bml_op, dup, var, const, var_indexed, context_var_indexed, context_const_indexed,
  store_result, loop, f_add, f_mul, pick, drop_top, swap, f_max, is_counted, uses_counter_loops,
}
use bml.Compiler.Rpn.Evaluate.{plain_op, run_ops}

module _ (float : Float) (ctx : EvalContext float) where
  open float use {F64}

  unfoldable pub run_all : List RpnOp → List F64 → Option (List F64)
  run_all [] stack = some stack
  run_all (op ∷ ops) stack = elim (plain_op float ctx op stack) [
    | none ↦ none
    | some stack' ↦ run_all ops stack'
  ]

  -- What follows the first operation.
  abbrev after : (List F64 → Option (List F64)) → Option (List F64) → Option (List F64)
  after next o = elim o [ none ↦ none | some s ↦ next s ]

  after-some :
      (f g : List F64 → Option (List F64)) (o : Option (List F64)) {t : List F64}
      (r : Option (List F64))
      → ((s : List F64) → f s ≡ some t → g s ≡ r)
      → after f o ≡ some t
      → after g o ≡ r
  after-some f g none r step e = cc
  after-some f g (some s) r step e = step s e

  some-eq : {a b : List F64} → some a ≡ some b → a ≡ b
  some-eq e = cc

  pub run_all-append :
      (xs ys : List RpnOp) (s : List F64) {t : List F64}
      → run_all xs s ≡ some t
      → run_all (xs ++ ys) s ≡ run_all ys t
  unfolding run_all
  run_all-append [] ys s e = ap (run_all ys) (some-eq e)
  run_all-append (op ∷ xs) ys s {t} e =
      after-some (run_all xs) (run_all (xs ++ ys)) (plain_op float ctx op s) (run_all ys t)
        (λ s' e'. run_all-append xs ys s' e') e

  module _ (run_loop : ℕ → ℕ → List RpnOp → List F64 → Option (List F64)) where
    run_ops-cons :
        (op : RpnOp) (ops : List RpnOp) (s : List F64) {t : List F64}
        → after (run_all ops) (plain_op float ctx op s) ≡ some t
        → run_ops float ctx run_loop (suc (length ops)) zero (op ∷ ops) s
          ≡ after (run_ops float ctx run_loop (length ops) zero ops) (plain_op float ctx op s)
    unfolding run_ops plain_op
    run_ops-cons (loop count body_len) ops s e = cc
    run_ops-cons one ops s e = refl
    run_ops-cons RpnOp.zero ops s e = refl
    run_ops-cons bml_op ops s e = refl
    run_ops-cons dup ops s e = refl
    run_ops-cons (var v) ops s e = refl
    run_ops-cons (const c) ops s e = refl
    run_ops-cons (var_indexed b) ops s e = refl
    run_ops-cons (context_var_indexed b) ops s e = refl
    run_ops-cons (context_const_indexed b) ops s e = refl
    run_ops-cons (store_result n) ops s e = refl
    run_ops-cons f_add ops s e = refl
    run_ops-cons f_mul ops s e = refl
    run_ops-cons (pick d) ops s e = refl
    run_ops-cons drop_top ops s e = refl
    run_ops-cons swap ops s e = refl
    run_ops-cons f_max ops s e = refl

    -- The evaluator runs such code the same way.
    pub run_ops-run_all :
        (ops : List RpnOp) (s : List F64) {t : List F64}
        → run_all ops s ≡ some t
        → run_ops float ctx run_loop (length ops) zero ops s ≡ some t
    unfolding run_all
    run_ops-run_all [] s e = unfold run_ops in e
    run_ops-run_all (op ∷ ops) s {t} e =
        run_ops-cons op ops s e
        ∙ after-some (run_all ops) (run_ops float ctx run_loop (length ops) zero ops)
            (plain_op float ctx op s) (some t) (λ s' e'. run_ops-run_all ops s' e') e

pub uses_counter_loops-append :
    (xs ys : List RpnOp)
    → uses_counter_loops xs ≡ false
    → uses_counter_loops ys ≡ false
    → uses_counter_loops (xs ++ ys) ≡ false
unfolding uses_counter_loops
uses_counter_loops-append [] ys e f = f
uses_counter_loops-append (op ∷ xs) ys e f =
    go (is_counted op) (uses_counter_loops xs) (uses_counter_loops-append xs ys) e
  where
    go :
        (a b : Bool)
        → (b ≡ false → uses_counter_loops ys ≡ false → uses_counter_loops (xs ++ ys) ≡ false)
        → (a || b) ≡ false
        → (a || uses_counter_loops (xs ++ ys)) ≡ false
    go true b ih e = cc
    go false b ih e = ih e f
