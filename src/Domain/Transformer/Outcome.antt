-- ===== src/Domain/Transformer/Outcome.antt =====
-- What a method of crates/domain/src/transformer.rs that accepts its operands leaves: the nodes of its
-- result, in columns that begin with those before.
use bml.Prelude.{
  ℕ, zero, suc, ◌+◌, ◌^◌, ◌≤◌, ◌<◌, ◌≡◌, refl, sym, false, Option, none, some, List, [], ◌∷◌, arith,
  leb, length, get_elem?, get_or, Result, ok,
}
use bml.Float.{Float}
use bml.Domain.Ast.{NodeId, NodeKind, get_var, get_const}
use bml.Domain.Soa.{NodeSoa, len}
use bml.Domain.Soa.Eval.{eval_node, evaluate_soa, evaluate_soa-Extends, get_elem?-lt}
use bml.Domain.Transformer.{Build, run}
use bml.Domain.Transformer.Kept.{Begins, Begins-refl, run-Kept}
use bml.Domain.Transformer.Ready.{Ready}
use bml.Domain.Transformer.Costs.{Costs}
use bml.Domain.Transformer.Operations.{check_nodes, execute}
use bml.Domain.Transformer.Values.{at_end, Holds, Makes}
use bml.Domain.Transformer.Values.Loops.{Aligned, aligned_nil, aligned_cons}

module _ (float : Float) where
  open float use {F64}

  abbrev pub HoldAll : List F64 → NodeSoa float → List NodeId → List F64 → Type 0
  HoldAll inputs soa ids values = Aligned (Holds float inputs soa) ids values

  get_or_kept :
      (xs ys : List F64) (i : ℕ)
      → ((j : ℕ) (x : F64) → get_elem? xs j ≡ some x → get_elem? ys j ≡ some x)
      → i < length xs
      → get_or xs i float.nan ≡ get_or ys i float.nan
  get_or_kept [] ys i kept lt = absurd (omega (arith, lt))
  get_or_kept (x ∷ xs) [] i kept lt = absurd (none-some (kept 0 x refl))
    where
      none-some : {x : F64} → none ≡ some x → ⊥
      none-some e = cc
  get_or_kept (x ∷ xs) (y ∷ ys) zero kept lt = some-eq (sym (kept 0 x refl))
    where
      some-eq : {a b : F64} → some a ≡ some b → a ≡ b
      some-eq e = cc
  get_or_kept (x ∷ xs) (y ∷ ys) (suc i) kept lt =
      get_or_kept xs ys i (λ j z e. kept (suc j) z e) (omega (arith, lt))

  module _ (inputs : List F64) {soa end : NodeSoa float} where
    -- A node keeps its value when the columns grow.
    pub Holds-Begins :
        {id : NodeId} {v : F64}
        → Ready float soa
        → Begins float soa end
        → Holds float inputs soa id v
        → Holds float inputs end id v
    unfolding get_var get_const
    Holds-Begins {id} r b h = record {
      fuel = h.fuel;
      value =
          evaluate_soa-Extends float h.fuel h.fuel soa end (at_end float inputs soa)
            (at_end float inputs end) id
            (record {
              kinds_kept = b.kinds_kept;
              lefts_kept = b.lefts_kept;
              rights_kept = b.rights_kept;
              inputs_kept = λ v. refl;
              weights_kept = λ i c e.
                  get_or_kept soa.const_pool end.const_pool c b.pool_kept (r.constants_known i c e);
            })
            (omega arith) h.value;
    }

    pub HoldAll-Begins :
        {ids : List NodeId} {values : List F64}
        → Ready float soa
        → Begins float soa end
        → HoldAll inputs soa ids values
        → HoldAll inputs end ids values
    HoldAll-Begins r b aligned_nil = aligned_nil
    HoldAll-Begins r b (aligned_cons h rest) =
        aligned_cons (Holds-Begins r b h) (HoldAll-Begins r b rest)

  -- A node with a value is among the columns.
  pub Holds-lt :
      (inputs : List F64) (soa : NodeSoa float) (id : NodeId) (v : F64)
      → Holds float inputs soa id v
      → id < len float soa
  unfolding evaluate_soa eval_node
  Holds-lt inputs soa id v h = at_fuel h.fuel h.value
    where
      at_kind :
          (rec : NodeId → Option F64) (o : Option NodeKind) (l r : Option NodeId)
          → get_elem? soa.kinds id ≡ o
          → eval_node float (at_end float inputs soa) rec o l r ≡ some v
          → id < len float soa
      at_kind rec none l r k e = cc
      at_kind rec (some kind) l r k e = get_elem?-lt soa.kinds id k

      at_fuel :
          (fuel : ℕ)
          → evaluate_soa float (at_end float inputs soa) fuel soa id ≡ some v
          → id < len float soa
      at_fuel zero e = cc
      at_fuel (suc fuel) e =
          at_kind (λ i. evaluate_soa float (at_end float inputs soa) fuel soa i)
            (get_elem? soa.kinds id) (get_elem? soa.lefts id) (get_elem? soa.rights id) refl e

  pub check_nodes-HoldAll :
      {E : Type 0} (invalid : NodeId → E) (inputs : List F64) (soa : NodeSoa float)
      {ids : List NodeId} {values : List F64}
      → HoldAll inputs soa ids values
      → check_nodes invalid (len float soa) ids ≡ ok tt
  unfolding check_nodes
  check_nodes-HoldAll invalid inputs soa aligned_nil = refl
  check_nodes-HoldAll invalid inputs soa (aligned_cons {x} {v} h rest) =
      rw (leb-eq-false (len float soa) x (Holds-lt inputs soa x v h))
        (check_nodes-HoldAll invalid inputs soa rest)
    where
      leb-eq-false : (a b : ℕ) → b < a → leb a b ≡ false
      leb-eq-false a b lt = ground arith

  pub record Outcome {E A : Type 0} (soa : NodeSoa float) (answer : Result E A × NodeSoa float)
      (nodes : ℕ) (P : NodeSoa float → A → Type 0) : Type 0 where
    pub result : A
    pub end : NodeSoa float
    pub answered : answer ≡ (ok result, end)
    pub described : P end result
    pub ready : Ready float end
    pub begins : Begins float soa end
    pub nodes_count : len float end ≡ len float soa + nodes

  -- A method with room for the nodes of its program.
  pub execute-Outcome :
      {E A : Type 0} (inputs : List F64) (soa : NodeSoa float) (checked : Result E (Build float A))
      {m : Build float A} {n p : ℕ} (P : NodeSoa float → A → Type 0)
      → checked ≡ ok m
      → Ready float soa
      → Costs m n p
      → len float soa + n ≤ 2 ^ 32
      → ((end : NodeSoa float)
          → len float end ≤ 2 ^ 32
          → length end.const_pool ≤ 2 ^ 32
          → Begins float soa end
          → Makes float inputs end m (P end))
      → Outcome soa (execute float checked soa) n P
  unfolding execute
  execute-Outcome inputs soa checked {m} {n} P e r costs room makes =
      let (begins, _) = run-Kept float m soa in
      let after = costs.ready_kept soa r in
      let count = costs.nodes_added soa in
      let small : len float (run float m soa).1 ≤ 2 ^ 32 = omega (arith, count, room) in
      record {
        result = (run float m soa).0;
        end = (run float m soa).1;
        answered = rw e refl;
        described =
            (makes (run float m soa).1 small (omega (arith, small, after.pool_fits)) begins).made
              soa r.balanced (Begins-refl float (run float m soa).1);
        ready = after;
        begins = begins;
        nodes_count = count;
      }
