-- ===== src/Compiler/Rpn/Linearize/Turns.antt =====
-- Turns of the loop of `linearize` in crates/compiler/src/rpn.rs, and the values that the code of a node leaves.
use bml.Prelude.{
  ℕ, suc, ◌+◌, ◌<◌, ◌≡◌, ◌≢◌, refl, ap, ◌∙◌, Bool, false, Option, some, List, [], ◌∷◌, arith,
  get_elem?,
}
use bml.Float.{Float}
use bml.Domain.Ast.{NodeId, NodeKind, EvalContext, get_var, get_const}
use bml.Domain.Operator.{bml_base_op}
use bml.Domain.Soa.{NodeSoa}
use bml.Domain.Soa.Eval.{eval_node, evaluate_soa, Extends, evaluate_soa-Extends}
use bml.Compiler.Rpn.{RpnOp, one, var, const, is_counted, uses_counter_loops}
use bml.Compiler.Rpn.Evaluate.{plain_op}
use bml.Compiler.Rpn.Straight.{run_all}
use bml.Compiler.Rpn.Linearize.{Work, emitted, Pending, visit, visit_all}
use bml.Compiler.Rpn.Linearize.Placed.{HasValue}

module _ (float : Float) (ctx : EvalContext float) (soa : NodeSoa float) where
  open float use {F64}

  -- Some turns of the loop.
  pub record Turns (pending : Pending) (work : Work) (pending' : Pending) (work' : Work)
      : Type 0 where
    pub count : ℕ
    pub turned :
        (fuel fuel' : ℕ)
        → fuel ≡ count + fuel'
        → visit_all float soa fuel pending work ≡ visit_all float soa fuel' pending' work'

  pub Turns-one :
      {id : NodeId} {expanded : Bool} {pending pending' : Pending} {work work' : Work}
      → visit float soa id expanded pending work ≡ some (pending', work')
      → Turns ((id, expanded) ∷ pending) work pending' work'
  unfolding visit_all
  Turns-one {id} {expanded} {pending} {work = work} e = record {
    count = 1;
    turned = λ fuel fuel' f.
        let g : fuel ≡ suc fuel' = omega (arith, f) in
        ap (λ n. visit_all float soa n ((id, expanded) ∷ pending) work) g ∙ rw (e, visit_all) refl;
  }

  pub Turns-trans : {p q r : Pending} {u v w : Work} → Turns p u q v → Turns q v r w → Turns p u r w
  Turns-trans a b = record {
    count = a.count + b.count;
    turned = λ fuel fuel' f.
        a.turned fuel (b.count + fuel') (omega (arith, f)) ∙ b.turned (b.count + fuel') fuel' refl;
  }

  -- A node without operands has the value of its code.
  pub record Leaf (work : Work) (stack : List F64) (id : NodeId) (kind : NodeKind) : Type 0 where
    pub code : List RpnOp
    pub value : F64
    pub emits : (l r : Option NodeId) → emitted work kind l r ≡ some code
    pub has_value : HasValue float ctx soa id value
    pub leaves : run_all float ctx code stack ≡ some (value ∷ stack)
    pub uncounted : uses_counter_loops code ≡ false

  pub NodeKind-Leaf :
      (work : Work) (stack : List F64) (id : NodeId) (kind : NodeKind)
      → get_elem? soa.kinds id ≡ some kind
      → kind ≢ NodeKind.bml_op
      → Leaf work stack id kind
  unfolding emitted evaluate_soa eval_node run_all plain_op uses_counter_loops is_counted
  NodeKind-Leaf work stack id NodeKind.one k ne = record {
    code = one ∷ [];
    value = float.one;
    emits = λ l r. refl;
    has_value = rw k refl;
    leaves = refl;
    uncounted = refl;
  }
  NodeKind-Leaf work stack id NodeKind.zero k ne = record {
    code = RpnOp.zero ∷ [];
    value = float.zero;
    emits = λ l r. refl;
    has_value = rw k refl;
    leaves = refl;
    uncounted = refl;
  }
  NodeKind-Leaf work stack id (NodeKind.var v) k ne = record {
    code = var v ∷ [];
    value = get_var float ctx v;
    emits = λ l r. refl;
    has_value = rw k refl;
    leaves = refl;
    uncounted = refl;
  }
  NodeKind-Leaf work stack id (NodeKind.const c) k ne = record {
    code = const c ∷ [];
    value = get_const float ctx c;
    emits = λ l r. refl;
    has_value = rw k refl;
    leaves = refl;
    uncounted = refl;
  }
  NodeKind-Leaf work stack id NodeKind.bml_op k ne = absurd (ne refl)

  -- The value of an operator from those of its operands, which precede it.
  pub operator-HasValue :
      (id l r : NodeId) {a b : F64}
      → get_elem? soa.kinds id ≡ some NodeKind.bml_op
      → get_elem? soa.lefts id ≡ some l
      → get_elem? soa.rights id ≡ some r
      → l < id
      → r < id
      → HasValue float ctx soa l a
      → HasValue float ctx soa r b
      → HasValue float ctx soa id (bml_base_op float a b)
  unfolding evaluate_soa eval_node
  operator-HasValue id l r k el er ll lr ha hb =
      let same : Extends float soa soa ctx ctx = record {
        kinds_kept = λ i k h. h;
        lefts_kept = λ i k h. h;
        rights_kept = λ i k h. h;
        inputs_kept = λ v. refl;
        weights_kept = λ i c h. refl;
      } in
      let x = evaluate_soa-Extends float (suc l) id soa soa ctx ctx l same (omega (arith, ll)) ha in
      let y = evaluate_soa-Extends float (suc r) id soa soa ctx ctx r same (omega (arith, lr)) hb in
      rw (k, el, er) (rw (x, y) refl)
