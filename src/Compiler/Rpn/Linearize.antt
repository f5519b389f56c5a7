-- ===== src/Compiler/Rpn/Linearize.antt =====
-- crates/compiler/src/rpn.rs: `linearize` and `linearize_outputs`. The top of `pending` is the head of its list;
-- `none` is a panic, or too little fuel.
pub mod Placed
pub mod Turns
pub mod Place
pub mod Visit
pub mod Correct
use bml.Prelude.{
  ℕ, zero, suc, ◌+◌, ◌-◌, Bool, true, false, ◌&&◌, Option, none, some, List, [], ◌∷◌, ◌++◌, ltb,
  if◌then◌else◌, get_elem?, set, replicate,
}
use bml.Float.{Float}
use bml.Domain.Ast.{NodeId, NodeKind}
use bml.Domain.Soa.{NodeSoa, as_u32, len}
use bml.Compiler.Rpn.{RpnOp, one, bml_op, var, const, pick, drop_top, swap, RpnProgram}

-- The program so far, the position of each node on the stack, and the height of the stack.
pub record Work : Type 0 where
  pub ops : List RpnOp
  pub slots : List (Option ℕ)
  pub height : ℕ

-- The two values, when both are there.
unfoldable pub both_of {ℓ} : {A B C : Type ℓ} → (A → B → Option C) → Option A → Option B → Option C
both_of f (some a) (some b) = f a b
both_of f (some a) none = none
both_of f none b = none

-- `slots[id].unwrap()`
unfoldable pub slot_of : List (Option ℕ) → NodeId → Option ℕ
slot_of slots id = elim (get_elem? slots id) [ none ↦ none | some slot ↦ slot ]

unfoldable pub pick_operands : ℕ → ℕ → ℕ → List RpnOp
pick_operands height left right =
    pick (as_u32 (height - 1 - left)) ∷ pick (as_u32 (height - right)) ∷ bml_op ∷ []

-- The code of a node whose operands have positions.
unfoldable pub emitted : Work → NodeKind → Option NodeId → Option NodeId → Option (List RpnOp)
emitted work NodeKind.one left right = some (one ∷ [])
emitted work NodeKind.zero left right = some (RpnOp.zero ∷ [])
emitted work (NodeKind.var v) left right = some (var v ∷ [])
emitted work (NodeKind.const c) left right = some (const c ∷ [])
emitted work NodeKind.bml_op left right =
    both_of
      (λ l r.
        both_of (λ a b. some (pick_operands work.height a b)) (slot_of work.slots l)
          (slot_of work.slots r))
      left right

abbrev pub Pending : Type 0
Pending = List (NodeId × Bool)

-- The node gets the next position.
unfoldable pub placed : Work → NodeId → List RpnOp → Work
placed work id code = record {
  ops = work.ops ++ code;
  slots = set work.slots id (some work.height);
  height = work.height + 1;
}

-- `for _ in 1..height`
unfoldable pub collapse : ℕ → List RpnOp
collapse zero = []
collapse (suc zero) = []
collapse (suc (suc n)) = swap ∷ drop_top ∷ collapse (suc n)

module _ (float : Float) (soa : NodeSoa float) where
  -- An operator waits for its operands, which must precede it.
  unfoldable pub expand : NodeId → Pending → Work → Option (Pending × Work)
  expand id pending work =
      both_of
        (λ left right.
          if ltb left id && ltb right id
          then some ((left, false) ∷ (right, false) ∷ (id, true) ∷ pending, work)
          else none)
        (get_elem? soa.lefts id) (get_elem? soa.rights id)

  unfoldable pub emit : NodeId → NodeKind → Pending → Work → Option (Pending × Work)
  emit id kind pending work =
      elim (emitted work kind (get_elem? soa.lefts id) (get_elem? soa.rights id)) [
        | none ↦ none
        | some code ↦ some (pending, placed work id code)
      ]

  unfoldable pub visit_kind : NodeId → Bool → NodeKind → Pending → Work → Option (Pending × Work)
  visit_kind id false NodeKind.bml_op pending work = expand id pending work
  visit_kind id expanded kind pending work = emit id kind pending work

  -- One turn of the loop.
  unfoldable pub visit : NodeId → Bool → Pending → Work → Option (Pending × Work)
  visit id expanded pending work = elim (get_elem? work.slots id) [
    | none ↦ none
    | some (some height) ↦ some (pending, work)
    | some none ↦ elim (get_elem? soa.kinds id) [
      | none ↦ none
      | some kind ↦ visit_kind id expanded kind pending work
    ]
  ]

  unfoldable pub visit_all : ℕ → Pending → Work → Option Work
  visit_all fuel [] work = some work
  visit_all zero ((id, expanded) ∷ pending) work = none
  visit_all (suc fuel) ((id, expanded) ∷ pending) work = elim (visit id expanded pending work) [
    | none ↦ none
    | some (pending', work') ↦ visit_all fuel pending' work'
  ]

  abbrev pub initial : Work
  initial = record { ops = []; slots = replicate (len float soa) none; height = 0 }

  unfoldable pub finished : Work → RpnProgram float
  finished work = record { const_pool = soa.const_pool; ops = work.ops ++ collapse work.height }

  unfoldable pub linearize : ℕ → NodeId → Option (RpnProgram float)
  linearize fuel root = elim (visit_all fuel ((root, false) ∷ []) initial) [
    | none ↦ none
    | some work ↦ some (finished work)
  ]
