-- ===== src/Compiler/Tests.antt =====
-- Runs of the registry of crates/compiler/src/hash_cons.rs and of the evaluator, and the theorems
-- on them at concrete inputs.
use bml.Prelude.{
  ℕ, zero, suc, ◌^◌, ◌<◌, ◌≡◌, refl, sym, ap, Option, some, List, [], ◌∷◌, arith, length,
}
use bml.Float.Numbers.{numbers}
use bml.Domain.Ast.{NodeId, Node, one_node as one_at, bml_node as bml_at}
use bml.Domain.Ast.Evaluate.{evaluate}
use bml.Domain.Soa.Agree.{push_all, HasOperands, evaluate_soa-evaluate}
use bml.Compiler.HashCons.Keys.{some_eq}
use bml.Domain.Soa.{new, len, push, push_one}
use bml.Domain.Soa.Eval.{
  IsWellFormed, evaluate_soa, eval_node, evaluate_soa_total, evaluate_soa-Extends,
}
use bml.Domain.Soa.Push.{push-IsWellFormed}
use bml.Domain.Operator.{bml_base_op}
use bml.Compiler.HashCons.{
  one_key, find_key, Registry, empty, intern, one_node, const_value, find_const, bml_node,
}
use bml.Compiler.HashCons.Valid.{key_node, HasKey, IsValid, empty-IsValid, context, Grows}
use bml.Compiler.HashCons.Intern.{intern_lem, same-Extends, intern-intern}
use bml.Compiler.HashCons.Lookup.{find_const_total}
use bml.Compiler.HashCons.Value.{value, Loads, const_value-Loads}
use bml.Compiler.HashCons.Fold.{bml_node-value}
use bml.Compiler.Rpn.{RpnProgram}
use bml.Compiler.Rpn.Evaluate.{evaluate_with_ctx}
use bml.Compiler.Rpn.Linearize.{linearize}
use bml.Compiler.Rpn.Linearize.Correct.{linearize-evaluate_soa}
use bml.Domain.Soa.Push.{len-push}
use bml.Domain.Soa.{NodeSoa}

-- A registry with the node `1`.
abbrev single : Registry numbers
single = (one_node numbers (empty numbers)).1

single-Grows :
    let (id, reg) =
      intern numbers (empty numbers) one_key (0, push numbers (new numbers) (key_node one_key 0)) in
    Grows numbers [] (empty numbers) reg id × HasKey numbers reg.soa one_key id
single-Grows =
    intern_lem numbers [] (empty numbers) (empty-IsValid numbers) one_key (omega arith) tt

single-IsValid : IsValid numbers single
unfolding one_node push_one
single-IsValid = single-Grows.0.valid

len-single : len numbers single.soa ≡ 1
unfolding one_node push_one push find_key
len-single = refl

small : length single.soa.const_pool < 2 ^ 32
unfolding one_node push_one push find_key
small = omega arith

first-one : HasKey numbers single.soa one_key 0
unfolding one_node push_one push find_key
first-one = refl

first-value : value numbers [] single 0 ≡ some 1
unfolding one_node push_one push find_key evaluate_soa eval_node
first-value = refl

intern-intern_example :
    let (id, reg) =
      intern numbers (empty numbers) one_key (0, push numbers (new numbers) (key_node one_key 0)) in
    intern numbers reg one_key (1, push numbers reg.soa (key_node one_key 1)) ≡ (id, reg)
unfolding find_key push
intern-intern_example =
    intern-intern numbers (empty numbers) one_key
      (0, push numbers (new numbers) (key_node one_key 0))
      (1, push numbers (push numbers (new numbers) (key_node one_key 0)) (key_node one_key 1))

evaluate_soa_total_example :
    (v : ℕ) × (evaluate_soa numbers (context numbers [] single.soa) 1 single.soa 0 ≡ some v)
evaluate_soa_total_example =
    evaluate_soa_total numbers (context numbers [] single.soa) 1 single.soa 0 single-IsValid.well
      (omega (arith, len-single)) (omega arith)

const_value-Loads_example :
    (id : NodeId) × (reg' : Registry numbers) × (const_value numbers single 5 ≡ some (id, reg'))
    × Grows numbers [] single reg' id
    × Loads numbers [] reg' id 5
const_value-Loads_example =
    const_value-Loads numbers [] single single-IsValid 5 (omega (arith, len-single)) small

bml_node-value_example :
    (id : NodeId) × (reg' : Registry numbers) × (bml_node numbers single 0 0 ≡ some (id, reg'))
    × Grows numbers [] single reg' id
    × (value numbers [] reg' id ≡ some (bml_base_op numbers 1 1))
bml_node-value_example =
    bml_node-value numbers [] single 0 0 single-IsValid (omega (arith, len-single))
      (omega (arith, len-single)) (omega (arith, len-single)) small first-value first-value

find_const_total_example : (o : Option NodeId) × (find_const numbers single.soa 3 1 0 ≡ some o)
find_const_total_example =
    find_const_total numbers single.soa 3 1 0 single-IsValid.well (omega (arith, len-single))
      (omega (arith, len-single))

value_one : evaluate_soa numbers (context numbers [] single.soa) 1 single.soa 0 ≡ some 1
unfolding one_node push_one push find_key evaluate_soa eval_node
value_one = refl

evaluate_soa-Extends_example :
    evaluate_soa numbers
      (context numbers [] (push numbers single.soa (bml_at 1 0 0)))
      5
      (push numbers single.soa (bml_at 1 0 0))
      0
    ≡ some 1
evaluate_soa-Extends_example =
    evaluate_soa-Extends numbers 1 5 single.soa (push numbers single.soa (bml_at 1 0 0))
      (context numbers [] single.soa) (context numbers [] (push numbers single.soa (bml_at 1 0 0)))
      0 (same-Extends numbers [] single single-IsValid (bml_at 1 0 0)) (omega arith) value_one

push-IsWellFormed_example : IsWellFormed numbers (push numbers single.soa (bml_at 1 0 0))
push-IsWellFormed_example =
    push-IsWellFormed numbers single.soa (bml_at 1 0 0) single-IsValid.well
      (λ e. (omega (arith, len-single), omega (arith, len-single)))

-- The nodes of `BML(1, 1)`.
abbrev pair : List Node
pair = one_at 0 ∷ bml_at 1 0 0 ∷ []

pair-HasOperands : HasOperands numbers pair
pair-HasOperands zero node h k = cc
pair-HasOperands (suc zero) node h k =
    let e : bml_at 1 0 0 ≡ node = some_eq h in
    (0, 0, ap (λ (n : Node). n.left) (sym e), ap (λ (n : Node). n.right) (sym e))
pair-HasOperands (suc (suc i)) node h k = cc

evaluate_soa-evaluate_example :
    evaluate_soa numbers
      (context numbers [] (new numbers))
      2
      (push_all numbers (new numbers) pair)
      1
    ≡ evaluate numbers 2 pair 1 (context numbers [] (new numbers))
evaluate_soa-evaluate_example =
    evaluate_soa-evaluate numbers (context numbers [] (new numbers)) pair 2 1 pair-HasOperands

-- The columns of `BML(1, 1)`.
abbrev two : NodeSoa numbers
two = push numbers single.soa (bml_at 1 0 0)

two-IsWellFormed : IsWellFormed numbers two
two-IsWellFormed =
    push-IsWellFormed numbers single.soa (bml_at 1 0 0) single-IsValid.well
      (λ e. (omega (arith, len-single), omega (arith, len-single)))

linearize-evaluate_soa_example :
    (program : RpnProgram numbers) × (v : ℕ) × (fuel : ℕ) × (linearize numbers two fuel 1
      ≡ some program)
    × (evaluate_soa numbers (context numbers [] two) 2 two 1 ≡ some v)
    × (evaluate_with_ctx numbers (context numbers [] two) program ≡ some v)
linearize-evaluate_soa_example =
    linearize-evaluate_soa numbers (context numbers [] two) two 1 two-IsWellFormed
      (omega (arith, len-push numbers single.soa (bml_at 1 0 0), len-single))
      (omega (arith, len-push numbers single.soa (bml_at 1 0 0), len-single))
