-- ===== src/Compiler/Rpn/Linearize/Place.antt =====
-- The nodes that the loop of `linearize` in crates/compiler/src/rpn.rs places in one turn.
use bml.Prelude.{
  ℕ, ◌-◌, ◌^◌, ◌≤◌, ◌<◌, ◌≡◌, ◌≢◌, refl, sym, ap, ◌∙◌, Bool, true, false, Option, none, some, List,
  ◌∷◌, arith, get_elem?,
}
use bml.Float.{Float}
use bml.Domain.Ast.{NodeId, NodeKind, EvalContext}
use bml.Domain.Operator.{bml_base_op}
use bml.Domain.Soa.{NodeSoa, len}
use bml.Domain.Soa.Eval.{get_elem?-lt}
use bml.Compiler.Rpn.{RpnOp, is_counted, uses_counter_loops}
use bml.Compiler.Rpn.Straight.{run_all}
use bml.Compiler.Rpn.Linearize.{
  Work, slot_of, both_of, pick_operands, emitted, Pending, placed, emit, visit_kind, visit,
}
use bml.Compiler.Rpn.Linearize.Placed.{
  free-set, get_elem?-set_self, get_elem?-set_ne, HasValue, Good, placed-Good, pick_operands-run,
}
use bml.Compiler.Rpn.Linearize.Turns.{Turns, Turns-one, operator-HasValue}

module _ (float : Float) (ctx : EvalContext float) (soa : NodeSoa float) where
  open float use {F64}

  -- The turns that visit a node, and the work that they leave.
  pub record Visited (id : NodeId) (expanded : Bool) (pending : Pending) (work : Work)
      : Type 0 where
    pub left : Work
    pub stack : List F64
    pub turns : Turns float ctx soa ((id, expanded) ∷ pending) work pending left
    pub good : Good float ctx soa left stack
    -- A position stays, and nothing above the node gets one.
    pub kept :
        (j h : ℕ) → get_elem? work.slots j ≡ some (some h) → get_elem? left.slots j ≡ some (some h)
    pub untouched : (j : ℕ) → id < j → get_elem? left.slots j ≡ get_elem? work.slots j
    pub at : ℕ
    pub position : get_elem? left.slots id ≡ some (some at)
    -- A node that had no position is on top.
    pub on_top : get_elem? work.slots id ≡ some none → at ≡ left.height - 1

  pub clash : {h : ℕ} (o : Option (Option ℕ)) → o ≡ some none → o ≡ some (some h) → ⊥
  clash o e f = cc

  -- A node that is placed in one turn.
  pub place :
      (id : NodeId) (expanded : Bool) (kind : NodeKind) (pending : Pending) (work : Work)
      (stack : List F64) (v : F64) (code : List RpnOp)
      → Good float ctx soa work stack
      → get_elem? work.slots id ≡ some none
      → get_elem? soa.kinds id ≡ some kind
      → visit_kind float soa id expanded kind pending work ≡ emit float soa id kind pending work
      → emitted work kind (get_elem? soa.lefts id) (get_elem? soa.rights id) ≡ some code
      → HasValue float ctx soa id v
      → run_all float ctx code stack ≡ some (v ∷ stack)
      → uses_counter_loops code ≡ false
      → Visited id expanded pending work
  unfolding visit emit placed
  place id expanded kind pending work stack v code good empty k here e value run plain = record {
    left = placed work id code;
    stack = v ∷ stack;
    turns = Turns-one float ctx soa (rw (empty, k, visit) (here ∙ rw (e, emit) refl));
    good = placed-Good float ctx soa work stack id v code good empty value run plain;
    kept = λ j h s. get_elem?-set_ne work.slots id j (some work.height) (differ j h s) ∙ s;
    untouched = λ j lt.
        get_elem?-set_ne work.slots id j (some work.height)
          (λ same. absurd (omega (arith, lt, same)));
    at = work.height;
    position =
        get_elem?-set_self work.slots id (some work.height) (get_elem?-lt work.slots id empty);
    on_top = λ free. omega arith;
  }
    where
      differ : (j h : ℕ) → get_elem? work.slots j ≡ some (some h) → id ≢ j
      differ j h s same =
          clash (get_elem? work.slots j) (ap (get_elem? work.slots) (sym same) ∙ empty) s

  -- The node of an operand is placed when its position is known.
  slot_of-some :
      (slots : List (Option ℕ)) (id h : ℕ)
      → get_elem? slots id ≡ some (some h)
      → slot_of slots id ≡ some h
  unfolding slot_of
  slot_of-some slots id h e = rw (e, slot_of) refl

  emitted-operator :
      (work : Work) (l r a b : ℕ)
      → get_elem? work.slots l ≡ some (some a)
      → get_elem? work.slots r ≡ some (some b)
      → emitted work NodeKind.bml_op (some l) (some r) ≡ some (pick_operands work.height a b)
  unfolding emitted both_of
  emitted-operator work l r a b ea eb =
      rw (slot_of-some work.slots l a ea, slot_of-some work.slots r b eb) refl

  pick_operands-uncounted : (height a b : ℕ) → uses_counter_loops (pick_operands height a b) ≡ false
  unfolding pick_operands uses_counter_loops is_counted
  pick_operands-uncounted height a b = refl

  Work-fits :
      (work : Work) (stack : List F64) (id : NodeId)
      → len float soa ≤ 2 ^ 32
      → Good float ctx soa work stack
      → get_elem? work.slots id ≡ some none
      → work.height < 2 ^ 32
  Work-fits work stack id small good empty =
      omega (arith, small, good.free_slots, free-set work.slots id 0 empty)

  -- An operator whose operands are placed.
  pub operator-Visited :
      (id l r : NodeId) (pending : Pending) (work : Work) (stack : List F64) (a b : ℕ)
      → len float soa ≤ 2 ^ 32
      → Good float ctx soa work stack
      → get_elem? work.slots id ≡ some none
      → get_elem? soa.kinds id ≡ some NodeKind.bml_op
      → get_elem? soa.lefts id ≡ some l
      → get_elem? soa.rights id ≡ some r
      → l < id
      → r < id
      → get_elem? work.slots l ≡ some (some a)
      → get_elem? work.slots r ≡ some (some b)
      → Visited id true pending work
  unfolding visit_kind
  operator-Visited id l r pending work stack a b small good empty k el er ll lr sl sr =
      let (la, (u, (hu, pu))) = good.held l a sl in
      let (lb, (v, (hv, pv))) = good.held r b sr in
      place id true NodeKind.bml_op pending work stack (bml_base_op float u v)
        (pick_operands work.height a b) good empty k refl
        (rw (el, er) (emitted-operator work l r a b sl sr))
        (operator-HasValue float ctx soa id l r k el er ll lr hu hv)
        (pick_operands-run float ctx soa stack work.height a b
          (Work-fits work stack id small good empty) la lb pu pv)
        (pick_operands-uncounted work.height a b)

  -- A node that is placed already.
  pub present-Visited :
      (id h : NodeId) (expanded : Bool) (pending : Pending) (work : Work) (stack : List F64)
      → Good float ctx soa work stack
      → get_elem? work.slots id ≡ some (some h)
      → Visited id expanded pending work
  unfolding visit
  present-Visited id h expanded pending work stack good e = record {
    left = work;
    stack = stack;
    turns = Turns-one float ctx soa (rw (e, visit) refl);
    good = good;
    kept = λ j k s. s;
    untouched = λ j lt. refl;
    at = h;
    position = e;
    on_top = λ free. absurd (clash (get_elem? work.slots id) free e);
  }
