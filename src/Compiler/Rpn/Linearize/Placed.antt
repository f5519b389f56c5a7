-- ===== src/Compiler/Rpn/Linearize/Placed.antt =====
-- What `linearize` of crates/compiler/src/rpn.rs keeps: the code so far leaves the values of the placed nodes on the
-- stack, at their positions.
use bml.Prelude.{
  ℕ, zero, suc, ◌+◌, ◌-◌, ◌^◌, ◌<◌, ◌≡◌, ◌≢◌, refl, sym, ap, ◌∙◌, subst, false, Option, none, some,
  List, [], ◌∷◌, inl, inr, arith, ◌==◌, ==_iff, Bool-cases, length, get_elem?, get_or, set,
  length-set,
}
use bml.Float.{Float}
use bml.Domain.Ast.{NodeId, EvalContext}
use bml.Domain.Operator.{bml_base_op}
use bml.Domain.Soa.{NodeSoa, as_u32, len}
use bml.Domain.Soa.Eval.{evaluate_soa, get_elem?-lt}
use bml.Compiler.Rpn.{RpnOp, bml_op, pick, uses_counter_loops}
use bml.Compiler.Rpn.Evaluate.{plain_op, picked}
use bml.Compiler.Rpn.Straight.{run_all, run_all-append, uses_counter_loops-append}
use bml.Compiler.Rpn.Linearize.{Work, pick_operands, placed}

-- The slots without a position.
unfoldable pub free : List (Option ℕ) → ℕ
free [] = 0
free (none ∷ slots) = suc (free slots)
free (some h ∷ slots) = free slots

pub free-set :
    (slots : List (Option ℕ)) (i h : ℕ)
    → get_elem? slots i ≡ some none
    → suc (free (set slots i (some h))) ≡ free slots
unfolding free
free-set [] i h e = cc
free-set (none ∷ slots) zero h e = refl
free-set (some k ∷ slots) zero h e = cc
free-set (none ∷ slots) (suc i) h e = ap suc (free-set slots i h e)
free-set (some k ∷ slots) (suc i) h e = free-set slots i h e

module _ {A : Type 0} where
  pub get_elem?-set_self :
      (xs : List A) (i : ℕ) (a : A) → i < length xs → get_elem? (set xs i a) i ≡ some a
  get_elem?-set_self [] i a lt = absurd (omega (arith, lt))
  get_elem?-set_self (x ∷ xs) zero a lt = refl
  get_elem?-set_self (x ∷ xs) (suc i) a lt = get_elem?-set_self xs i a (omega (arith, lt))

  pub get_elem?-set_ne :
      (xs : List A) (i j : ℕ) (a : A) → i ≢ j → get_elem? (set xs i a) j ≡ get_elem? xs j
  get_elem?-set_ne [] i j a ne = refl
  get_elem?-set_ne (x ∷ xs) zero zero a ne = absurd (ne refl)
  get_elem?-set_ne (x ∷ xs) zero (suc j) a ne = refl
  get_elem?-set_ne (x ∷ xs) (suc i) zero a ne = refl
  get_elem?-set_ne (x ∷ xs) (suc i) (suc j) a ne = get_elem?-set_ne xs i j a (λ e. ne (ap suc e))

  pub get_or-some :
      (xs : List A) (i : ℕ) (d : A) {a : A} → get_elem? xs i ≡ some a → get_or xs i d ≡ a
  get_or-some [] i d e = cc
  get_or-some (x ∷ xs) zero d e = cc
  get_or-some (x ∷ xs) (suc i) d e = get_or-some xs i d e

module _ (float : Float) (ctx : EvalContext float) (soa : NodeSoa float) where
  open float use {F64}

  abbrev pub HasValue : NodeId → F64 → Type 0
  HasValue id v = evaluate_soa float ctx (suc id) soa id ≡ some v

  -- The work so far, and the stack that its code leaves.
  pub record Good (work : Work) (stack : List F64) : Type 0 where
    pub runs : run_all float ctx work.ops [] ≡ some stack
    pub uncounted : uses_counter_loops work.ops ≡ false
    pub stack_height : length stack ≡ work.height
    pub slots_length : length work.slots ≡ len float soa
    pub free_slots : work.height + free work.slots ≡ len float soa
    pub held :
        (id h : ℕ)
        → get_elem? work.slots id ≡ some (some h)
        → (h < work.height)
          × ((v : F64) × (HasValue id v × (get_elem? stack (work.height - 1 - h) ≡ some v)))

  -- The code of a node puts its value on the stack.
  pub placed-Good :
      (work : Work) (stack : List F64) (id : NodeId) (v : F64) (code : List RpnOp)
      → Good work stack
      → get_elem? work.slots id ≡ some none
      → HasValue id v
      → run_all float ctx code stack ≡ some (v ∷ stack)
      → uses_counter_loops code ≡ false
      → Good (placed work id code) (v ∷ stack)
  unfolding placed
  placed-Good work stack id v code good empty value run plain = record {
    runs = run_all-append float ctx work.ops code [] good.runs ∙ run;
    uncounted = uses_counter_loops-append work.ops code good.uncounted plain;
    stack_height = omega (arith, good.stack_height);
    slots_length = length-set work.slots id (some work.height) ∙ good.slots_length;
    free_slots = omega (arith, good.free_slots, free-set work.slots id work.height empty);
    held = λ j h e. elim (Bool-cases (id == j)) [
      | inl same ↦ here j h ((==_iff id j).0 same) e
      | inr other ↦ there j h (λ same. ne id j other same) e
    ];
  }
    where
      ne : (i j : ℕ) → (i == j) ≡ false → i ≢ j
      ne i j e = ground arith

      some-eq : {a b : Option ℕ} → some a ≡ some b → a ≡ b
      some-eq e = cc

      some-eq' : {a b : ℕ} → some a ≡ some b → a ≡ b
      some-eq' e = cc

      here :
          (j h : ℕ)
          → id ≡ j
          → get_elem? (set work.slots id (some work.height)) j ≡ some (some h)
          → (h < work.height + 1)
            × ((u : F64) × (HasValue j u
                  × (get_elem? (v ∷ stack) (work.height + 1 - 1 - h) ≡ some u)))
      here j h same e =
          let at_id : get_elem? (set work.slots id (some work.height)) id
              ≡ some (some work.height) =
            get_elem?-set_self work.slots id (some work.height)
              (get_elem?-lt work.slots id empty) in
          let top : work.height ≡ h = some-eq' (
            some-eq (sym at_id ∙ ap (get_elem? (set work.slots id (some work.height))) same ∙ e)) in
          let zeroth : work.height + 1 - 1 - h ≡ 0 = omega (arith, top) in
          (
            omega (arith, top),
            (v, (subst (λ k. HasValue k v) same value, ap (get_elem? (v ∷ stack)) zeroth)),
          )

      there :
          (j h : ℕ)
          → id ≢ j
          → get_elem? (set work.slots id (some work.height)) j ≡ some (some h)
          → (h < work.height + 1)
            × ((u : F64) × (HasValue j u
                  × (get_elem? (v ∷ stack) (work.height + 1 - 1 - h) ≡ some u)))
      there j h other e =
          let (lt, (u, (value', at))) =
            good.held j h (sym (get_elem?-set_ne work.slots id j (some work.height) other) ∙ e) in
          let later : work.height + 1 - 1 - h ≡ suc (work.height - 1 - h) = omega (arith, lt) in
          (omega (arith, lt), (u, (value', ap (get_elem? (v ∷ stack)) later ∙ at)))

  -- A value below the top is picked by its depth.
  pub picked_lem :
      (stack : List F64) (depth : ℕ) {v : F64}
      → get_elem? stack depth ≡ some v
      → picked float ctx depth stack ≡ v ∷ stack
  unfolding picked
  picked_lem stack depth e =
      let index : length stack - 1 - (length stack - (1 + depth)) ≡ depth =
        omega (arith, get_elem?-lt stack depth e) in
      ap (λ x. x ∷ stack)
        (ap (λ i. get_or stack i float.zero) index ∙ get_or-some stack depth float.zero e)

  -- The code of an operator, on a stack with the values of its operands.
  pub pick_operands-run :
      (stack : List F64) (height left right : ℕ) {a b : F64}
      → height < 2 ^ 32
      → left < height
      → right < height
      → get_elem? stack (height - 1 - left) ≡ some a
      → get_elem? stack (height - 1 - right) ≡ some b
      → run_all float ctx (pick_operands height left right) stack
        ≡ some (bml_base_op float a b ∷ stack)
  unfolding run_all plain_op pick_operands
  pick_operands-run stack height left right {a} {b} small ll lr ea eb =
      let first : as_u32 (height - 1 - left) ≡ height - 1 - left = omega (arith, small, ll) in
      let second : as_u32 (height - right) ≡ suc (height - 1 - right) = omega (arith, small, lr) in
      rw (first, second)
        (ap (run_all float ctx (pick (suc (height - 1 - right)) ∷ bml_op ∷ []))
            (picked_lem stack (height - 1 - left) ea)
          ∙ ap (run_all float ctx (bml_op ∷ []))
              (picked_lem (a ∷ stack) (suc (height - 1 - right)) eb))
