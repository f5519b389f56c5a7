-- ===== src/Domain/Transformer/Values.antt =====
-- The values of the nodes that a program of crates/domain/src/transformer.rs makes, in columns that
-- begin with those that the program leaves.
pub mod Primitives
pub mod Arithmetic
pub mod Loops
pub mod Operations
pub mod Bounded
pub mod Stages
pub mod OpStages
pub mod Programs
pub mod Op
use bml.Prelude.{
  ℕ, zero, suc, ◌+◌, ◌-◌, ◌*◌, ◌/◌, ◌%◌, ◌^◌, ◌≤◌, ◌<◌, min, max, ◌≡◌, ◌≢◌, refl, sym, ap, ap₂, ◌∙◌,
  subst, Bool, true, false, not, ◌&&◌, ◌||◌, cond, Option, none, some, List, [], ◌∷◌, ◌++◌, map,
  append_assoc, append-nil, ◌⊎◌, inl, inr, ◌↔◌, arith, tests, ltb, leb, ltb→lt, lt→ltb, ltb→le,
  ltb-eq-false, leb→le, ◌==◌, ==_iff, ==_refl, if◌then◌else◌, Bool-cases, Option-cases, length,
  get_elem?, get_or, set, take, drop, replicate, length-append, length-set, length-replicate,
  get_or-set_self, get_or-set_ne, get_or-replicate, get_or_of_ge, length-drop, drop-length_append,
  take-length_append, get_elem?-append_left, get_elem?-append_end, length-map, Result, ok, err,
  ok_or, map_err, Result-cases, >>-eq-ok,
}
use bml.Float.{Float}
use bml.Domain.Ast.{NodeId, NodeKind, Node, EvalContext, get_var, get_const}
use bml.Domain.Operator.{bml_base_op}
use bml.Domain.Soa.{NodeSoa, as_u32, or_zero, len, push, push_one, push_var, push_const, push_bml}
use bml.Domain.Soa.Eval.{evaluate_soa, eval_node, Extends, evaluate_soa-Extends, get_elem?-lt}
use bml.Domain.Soa.Push.{push_kind, push_left, push_right, len-push}
use bml.Domain.Transformer.{
  Call, call_one, call_var, call_const, call_bml, perform, append_constant, Build, done, call, pool,
  run, ◌>>=◌,
}
use bml.Domain.Transformer.Kept.{Balanced, Begins, Begins-refl, Begins-trans, run-Kept, run-bind}

module _ (float : Float) (inputs : List (float.F64)) (end : NodeSoa float) where
  open float use {F64}

  abbrev pub at_end : EvalContext float
  at_end = record { inputs = inputs; weights = end.const_pool }

  -- The node has the value, with some fuel.
  pub record Holds (id : NodeId) (v : F64) : Type 0 where
    pub fuel : ℕ
    pub value : evaluate_soa float at_end fuel end id ≡ some v

  -- The columns of the program are the beginning of those at the end, and what it returns is as
  -- described.
  pub record Makes {A : Type 0} (m : Build float A) (P : A → Type 0) : Type 0 where
    pub made :
        (soa : NodeSoa float)
        → Balanced float soa
        → Begins float (run float m soa).1 end
        → P (run float m soa).0

  pub done-Makes : {A : Type 0} {P : A → Type 0} {a : A} → P a → Makes (done a) P
  unfolding run
  done-Makes p = record { made = λ soa b g. p }

  pub bind-Makes :
      {A B : Type 0} {m : Build float A} {k : A → Build float B} {P : A → Type 0} {Q : B → Type 0}
      → Makes m P
      → ((a : A) → P a → Makes (k a) Q)
      → Makes (m >>= k) Q
  bind-Makes {A} {B} {m} {k} {P} {Q} makes next = record {
    made = λ soa b g.
        let e = run-bind float m k soa in
        let g' = subst (λ (r : B × NodeSoa float). Begins float r.1 end) e g in
        let (mid, bal) = run-Kept float m soa in
        let (later, _) = run-Kept float (k (run float m soa).0) (run float m soa).1 in
        subst (λ (r : B × NodeSoa float). Q r.0) (sym e)
          ((next (run float m soa).0 (makes.made soa b (Begins-trans float later g'))).made
            (run float m soa).1 (bal b) g');
  }
