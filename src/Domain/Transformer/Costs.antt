-- ===== src/Domain/Transformer/Costs.antt =====
-- How many nodes and constants the programs of crates/domain/src/transformer.rs append, to columns that own
-- their constants.
pub mod Arithmetic
pub mod Bounded
pub mod Stages
pub mod Programs
pub mod Op
pub mod Tensor
use bml.Prelude.{
  ℕ, zero, suc, ◌+◌, ◌-◌, ◌*◌, ◌/◌, ◌%◌, ◌^◌, ◌≤◌, ◌<◌, min, max, ◌≡◌, ◌≢◌, refl, sym, ap, ap₂, ◌∙◌,
  subst, Bool, true, false, not, ◌&&◌, ◌||◌, cond, Option, none, some, List, [], ◌∷◌, ◌++◌, map,
  append_assoc, append-nil, ◌⊎◌, inl, inr, ◌↔◌, arith, tests, ltb, leb, ltb→lt, lt→ltb, ltb→le,
  ltb-eq-false, leb→le, ◌==◌, ==_iff, ==_refl, if◌then◌else◌, Bool-cases, Option-cases, length,
  get_elem?, get_or, set, take, drop, replicate, length-append, length-set, length-replicate,
  get_or-set_self, get_or-set_ne, get_or-replicate, get_or_of_ge, length-drop, drop-length_append,
  take-length_append, get_elem?-append_left, get_elem?-append_end, length-map, Result, ok, err,
  ok_or, map_err, Result-cases, >>-eq-ok,
}
use bml.Float.{Float}
use bml.Domain.Ast.{NodeId}
use bml.Domain.Soa.{NodeSoa, as_u32, len, push, push_one, push_const, push_bml}
use bml.Domain.Soa.Push.{len-push}
use bml.Domain.Transformer.{Build, done, call, pool, perform, append_constant, run, ◌>>=◌}
use bml.Domain.Transformer.Kept.{run-bind}
use bml.Domain.Transformer.Ready.{Ready, Ready-push, Ready-constant}
use bml.Domain.Transformer.Loops.{for_each, for_zip, fold_nodes}
use bml.Domain.Transformer.Arithmetic as Program

module _ {float : Float} where
  open float use {F64}

  pub record Costs {A : Type 0} (m : Build float A) (nodes constants : ℕ) : Type 0 where
    pub nodes_added : (soa : NodeSoa float) → len float (run float m soa).1 ≡ len float soa + nodes
    pub constants_added :
        (soa : NodeSoa float)
        → length ((run float m soa).1).const_pool ≡ length soa.const_pool + constants
    pub ready_kept : (soa : NodeSoa float) → Ready float soa → Ready float (run float m soa).1

  pub done-Costs : {A : Type 0} (a : A) → Costs (done a) 0 0
  unfolding run
  done-Costs a = record {
    nodes_added = λ soa. omega arith;
    constants_added = λ soa. omega arith;
    ready_kept = λ soa r. r;
  }

  -- The rest may rely on what the first program returns.
  pub bind-Costs-when :
      {A B : Type 0} {m : Build float A} {k : A → Build float B} (P : A → Type 0) (n n' p p' : ℕ)
      → ((soa : NodeSoa float) → P (run float m soa).0)
      → Costs m n p
      → ((a : A) → P a → Costs (k a) n' p')
      → Costs (m >>= k) (n + n') (p + p')
  bind-Costs-when {m} {k} P n n' p p' returns first next = record {
    nodes_added = λ soa. rw (run-bind float m k soa) (
        omega (
          arith,
          first.nodes_added soa,
          (next (run float m soa).0 (returns soa)).nodes_added (run float m soa).1,
        ));
    constants_added = λ soa. rw (run-bind float m k soa) (
        omega (
          arith,
          first.constants_added soa,
          (next (run float m soa).0 (returns soa)).constants_added (run float m soa).1,
        ));
    ready_kept = λ soa r. rw (run-bind float m k soa) (
        (next (run float m soa).0 (returns soa)).ready_kept (run float m soa).1
          (first.ready_kept soa r));
  }

  pub bind-Costs :
      {A B : Type 0} {m : Build float A} {k : A → Build float B} (n n' p p' : ℕ)
      → Costs m n p
      → ((a : A) → Costs (k a) n' p')
      → Costs (m >>= k) (n + n') (p + p')
  bind-Costs n n' p p' first next =
      bind-Costs-when (λ a. Unit) n n' p p' (λ soa. tt) first λ a u. next a

  pub Costs-eq :
      {A : Type 0} {m : Build float A} {n n' p p' : ℕ}
      → n ≡ n'
      → p ≡ p'
      → Costs m n p
      → Costs m n' p'
  Costs-eq e e' c = rw (sym e, sym e') c

  pub one-Costs : Costs Program.one 1 0
  unfolding Program.one run perform push_one
  one-Costs = record {
    nodes_added = λ soa. len-push float soa _;
    constants_added = λ soa. unfold push in omega arith;
    ready_kept = λ soa r. Ready-push float soa _ r (λ c e. cc);
  }

  pub apply-Costs : (l r : NodeId) → Costs (Program.apply l r) 1 0
  unfolding Program.apply run perform push_bml
  apply-Costs l r = record {
    nodes_added = λ soa. len-push float soa _;
    constants_added = λ soa. unfold push in omega arith;
    ready_kept = λ soa r. Ready-push float soa _ r (λ c e. cc);
  }

  pub constant-Costs : (x : F64) → Costs (Program.constant x) 1 1
  unfolding Program.constant run perform push_const append_constant
  constant-Costs x = record {
    nodes_added = λ soa. len-push float (append_constant float x soa) _;
    constants_added = λ soa. unfold push in length-append soa.const_pool (x ∷ []);
    ready_kept = λ soa r.
        Ready-constant float soa x _ r
          λ c e. let q : as_u32 (length soa.const_pool) ≡ c = cc in omega (arith, q);
  }

  -- A loop over a list costs its length times the cost of an element.
  pub for_each-Costs :
      {A B : Type 0} (f : A → Build float B) (n p : ℕ)
      → ((x : A) → Costs (f x) n p)
      → (xs : List A) → Costs (for_each f xs) (length xs * n) (length xs * p)
  unfolding for_each
  for_each-Costs f n p each [] = Costs-eq (omega arith) (omega arith) (done-Costs [])
  for_each-Costs f n p each (x ∷ xs) = Costs-eq (omega arith) (omega arith) (
      bind-Costs n (length xs * n + 0) p (length xs * p + 0) (each x) λ y.
        bind-Costs (length xs * n) 0 (length xs * p) 0 (for_each-Costs f n p each xs)
          λ ys. done-Costs (y ∷ ys))

  pub fold_nodes-Costs :
      {A B : Type 0} (f : B → A → Build float B) (n p : ℕ)
      → ((b : B) (x : A) → Costs (f b x) n p)
      → (b : B) (xs : List A) → Costs (fold_nodes f b xs) (length xs * n) (length xs * p)
  unfolding fold_nodes
  fold_nodes-Costs f n p each b [] = Costs-eq (omega arith) (omega arith) (done-Costs b)
  fold_nodes-Costs f n p each b (x ∷ xs) = Costs-eq (omega arith) (omega arith) (
      bind-Costs n (length xs * n) p (length xs * p) (each b x)
        λ b'. fold_nodes-Costs f n p each b' xs)

  pub for_zip-Costs :
      {A B C : Type 0} (f : A → B → Build float C) (n p : ℕ)
      → ((x : A) (y : B) → Costs (f x y) n p)
      → (xs : List A) (ys : List B) → length xs ≡ length ys
      → Costs (for_zip f xs ys) (length ys * n) (length ys * p)
  unfolding for_zip
  for_zip-Costs f n p each [] [] e = Costs-eq (omega arith) (omega arith) (done-Costs [])
  for_zip-Costs f n p each [] (y ∷ ys) e = absurd (omega (arith, e))
  for_zip-Costs f n p each (x ∷ xs) [] e = absurd (omega (arith, e))
  for_zip-Costs f n p each (x ∷ xs) (y ∷ ys) e = Costs-eq (omega arith) (omega arith) (
      bind-Costs n (length ys * n + 0) p (length ys * p + 0) (each x y) λ z.
        bind-Costs (length ys * n) 0 (length ys * p) 0
          (for_zip-Costs f n p each xs ys (omega (arith, e))) λ zs. done-Costs (z ∷ zs))

  -- A loop returns a result for each element.
  pub length-for_each :
      {A B : Type 0} (f : A → Build float B) (xs : List A) (soa : NodeSoa float)
      → length (run float (for_each f xs) soa).0 ≡ length xs
  unfolding for_each run
  length-for_each f [] soa = refl
  length-for_each f (x ∷ xs) soa =
      ap length
        (ap (λ r. r.0) (run-bind float (f x) (λ y. for_each f xs >>= λ ys. done (y ∷ ys)) soa))
      ∙ ap length (
          ap (λ r. r.0)
            (run-bind float (for_each f xs) (λ ys. done ((run float (f x) soa).0 ∷ ys))
              (run float (f x) soa).1))
      ∙ ap suc (length-for_each f xs (run float (f x) soa).1)
