-- ===== src/Domain/Transformer/Accepted/StageLoops.antt =====
-- The reduction and output stages of crates/domain/src/transformer/bounded.rs called for each operand on one
-- set of columns.
use bml.Prelude.{
  ℕ, ◌+◌, ◌*◌, ◌^◌, ◌<◌, ◌≡◌, refl, subst, List, [], ◌∷◌, arith, length, Result, ok, err,
}
use bml.Float.{Float}
use bml.Domain.Ast.{NodeId}
use bml.Domain.Soa.{NodeSoa, len}
use bml.Domain.Transformer.Kept.{Begins, Begins-refl, Begins-trans}
use bml.Domain.Transformer.Ready.{Ready}
use bml.Domain.Transformer.Loops.{zip_with, fold}
use bml.Domain.Transformer.Values.{Holds}
use bml.Domain.Transformer.Values.Loops.{aligned_nil, aligned_cons}
use bml.Domain.Transformer.Bounded.{BoundedBuildError}
use bml.Domain.Transformer.Bounded.RmsConfig.{BoundedRmsConfig}
use bml.Domain.Transformer.Bounded.Rms.{rms_norm_bounded_reduce, rms_norm_bounded_output}
use bml.Domain.Transformer.Formula.Within.{unit}
use bml.Domain.Transformer.Formula.Rms.{add_square, weighted}
use bml.Domain.Transformer.Outcome.{HoldAll, Holds-Begins, HoldAll-Begins, Outcome}
use bml.Domain.Transformer.Accepted.Rms.{
  rms_norm_bounded_reduce-Outcome, rms_norm_bounded_output-Outcome,
}

module _ (float : Float) where
  open float use {F64}

  abbrev Answer : Type 0 → Type 0
  Answer A = Result BoundedBuildError A × NodeSoa float

  -- A call on the columns that an accepted call leaves; an error ends the sequence.
  pub and_then : {A B : Type 0} → Answer A → (A → NodeSoa float → Answer B) → Answer B
  and_then (ok a, soa) f = f a soa
  and_then (err e, soa) f = (err e, soa)

  pub and_then-Outcome :
      {A B : Type 0} (soa : NodeSoa float) (answer : Answer A) (f : A → NodeSoa float → Answer B)
      (n m : ℕ) (P : NodeSoa float → A → Type 0) (Q : NodeSoa float → B → Type 0)
      → Outcome float soa answer n P
      → ((end : NodeSoa float) (a : A)
          → Ready float end
          → Begins float soa end
          → len float end ≡ len float soa + n
          → P end a
          → Outcome float end (f a end) m Q)
      → Outcome float soa (and_then answer f) (n + m) Q
  unfolding and_then
  and_then-Outcome soa answer f n m P Q o next =
      let rest = next o.end o.result o.ready o.begins o.nodes_count o.described in
      record {
        result = rest.result;
        end = rest.end;
        answered = rw o.answered rest.answered;
        described = rest.described;
        ready = rest.ready;
        begins = Begins-trans float o.begins rest.begins;
        nodes_count = omega (arith, o.nodes_count, rest.nodes_count);
      }

  pub accepted-Outcome :
      {A : Type 0} (soa : NodeSoa float) (a : A) (P : NodeSoa float → A → Type 0)
      → Ready float soa
      → P soa a
      → Outcome float {E = BoundedBuildError} soa (ok a, soa) 0 P
  accepted-Outcome soa a P r p = record {
    result = a;
    end = soa;
    answered = refl;
    described = p;
    ready = r;
    begins = Begins-refl float soa;
    nodes_count = omega arith;
  }

  pub Outcome-eq :
      {A : Type 0} {soa : NodeSoa float} {answer : Answer A} {n m : ℕ}
      {P : NodeSoa float → A → Type 0}
      → n ≡ m
      → Outcome float soa answer n P
      → Outcome float soa answer m P
  Outcome-eq {A} {soa} {answer} {n} {m} {P} e o = subst (λ k. Outcome float soa answer k P) e o

  -- A reduction for each operand, from the node of a total.
  pub reduce_all : BoundedRmsConfig float → List NodeId → NodeId → NodeSoa float → Answer NodeId
  reduce_all config [] total soa = (ok total, soa)
  reduce_all config (x ∷ xs) total soa =
      and_then (rms_norm_bounded_reduce float soa (total ∷ x ∷ []) config)
        λ next columns. reduce_all config xs next columns

  -- An output for each operand and its weight.
  pub output_all :
      BoundedRmsConfig float
      → NodeId
      → NodeId
      → List NodeId
      → List NodeId
      → NodeSoa float
      → Answer (List NodeId)
  output_all config inverse_root shift [] weights soa = (ok [], soa)
  output_all config inverse_root shift (x ∷ xs) [] soa = (ok [], soa)
  output_all config inverse_root shift (x ∷ xs) (w ∷ weights) soa =
      and_then (rms_norm_bounded_output float soa (x ∷ w ∷ inverse_root ∷ shift ∷ []) config)
        λ id columns.
          and_then (output_all config inverse_root shift xs weights columns)
            λ ids end. (ok (id ∷ ids), end)

  module _ (inputs : List F64) (config : BoundedRmsConfig float) where
    pub reduce_all-Outcome :
        (soa : NodeSoa float) (r : Ready float soa) (ids : List NodeId) (xs : List F64)
        (total : NodeId) (t : F64)
        → len float soa + length ids * 318 + 16384 < 2 ^ 32
        → Holds float inputs soa total t
        → HoldAll float inputs soa ids xs
        → Outcome float soa (reduce_all config ids total soa) (length ids * 318) (λ end id.
          Holds float inputs end id
            (fold (λ t x. add_square float config t (unit float config.input_bound x)) t xs))
    unfolding reduce_all fold
    reduce_all-Outcome soa r [] [] total t room h aligned_nil = accepted-Outcome soa total _ r h
    reduce_all-Outcome soa r [] (v ∷ xs) total t room h hx = elim hx [ ]
    reduce_all-Outcome soa r (x ∷ ids) [] total t room h hx = elim hx [ ]
    reduce_all-Outcome soa r (x ∷ ids) (v ∷ xs) total t room h (aligned_cons k rest) =
        Outcome-eq (omega arith) (
          and_then-Outcome soa (rms_norm_bounded_reduce float soa (total ∷ x ∷ []) config) _ 318
            (length ids * 318) _ _
            (rms_norm_bounded_reduce-Outcome float inputs soa config r (omega (arith, room)) h k)
            λ end next ready begins count held.
              reduce_all-Outcome end ready ids xs next _ (omega (arith, room, count)) held
                (HoldAll-Begins float inputs r begins rest))

    pub output_all-Outcome :
        (soa : NodeSoa float) (r : Ready float soa) (ids weights : List NodeId) (xs ws : List F64)
        (inverse_root shift : NodeId) (i s : F64)
        → length xs ≡ length ws
        → len float soa + length ids * 599 + 16384 < 2 ^ 32
        → Holds float inputs soa inverse_root i
        → Holds float inputs soa shift s
        → HoldAll float inputs soa ids xs
        → HoldAll float inputs soa weights ws
        → Outcome float soa
            (output_all config inverse_root shift ids weights soa)
            (length ids * 599)
            (λ end outputs. HoldAll float inputs end outputs (
              zip_with
                (λ x w. weighted float config i s (unit float config.input_bound x) w)
                xs
                ws))
    unfolding output_all zip_with
    output_all-Outcome soa r [] weights [] ws inverse_root shift i s e room hi hs aligned_nil hw =
        accepted-Outcome soa [] _ r aligned_nil
    output_all-Outcome soa r [] weights (v ∷ xs) ws inverse_root shift i s e room hi hs hx hw =
        elim hx [ ]
    output_all-Outcome soa r (x ∷ ids) weights [] ws inverse_root shift i s e room hi hs hx hw =
        elim hx [ ]
    output_all-Outcome soa r (x ∷ ids) weights (v ∷ xs) [] inverse_root shift i s e room hi hs hx
          hw =
        absurd (omega (arith, e))
    output_all-Outcome soa r (x ∷ ids) [] (v ∷ xs) (w ∷ ws) inverse_root shift i s e room hi hs hx
          hw =
        elim hw [ ]
    output_all-Outcome soa r (x ∷ ids) (y ∷ weights) (v ∷ xs) (w ∷ ws) inverse_root shift i s e room
          hi hs (aligned_cons hx xrest) (aligned_cons hw wrest) =
        Outcome-eq (omega arith) (
          and_then-Outcome soa
            (rms_norm_bounded_output float soa (x ∷ y ∷ inverse_root ∷ shift ∷ []) config) _ 599
            (length ids * 599 + 0) _ _
            (rms_norm_bounded_output-Outcome float inputs soa config r (omega (arith, room)) hx hw
              hi hs)
            λ end id ready begins count held.
              and_then-Outcome end (output_all config inverse_root shift ids weights end) _
                (length ids * 599) 0 _ _
                (output_all-Outcome end ready ids weights xs ws inverse_root shift i s
                  (omega (arith, e)) (omega (arith, room, count))
                  (Holds-Begins float inputs r begins hi) (Holds-Begins float inputs r begins hs)
                  (HoldAll-Begins float inputs r begins xrest)
                  (HoldAll-Begins float inputs r begins wrest))
                λ last outputs steady kept total all.
                  accepted-Outcome last (id ∷ outputs) _ steady
                    (aligned_cons (Holds-Begins float inputs ready kept held) all))
