-- ===== src/Domain/Soa/Eval.antt =====
-- `evaluate_soa` of crates/compiler/src/dag.rs, and the columns that it is defined on.
use bml.Prelude.{
  ℕ, zero, suc, ◌≤◌, ◌<◌, ◌≡◌, refl, sym, ap, ◌∙◌, Option, none, some, List, [], ◌∷◌, ◌++◌, ◌⊎◌,
  inl, inr, arith, Option-cases, length, get_elem?,
}
use bml.Float.{Float}
use bml.Domain.Ast.{both, bind, NodeId, NodeKind, EvalContext, get_var, get_const}
use bml.Domain.Operator.{bml_base_op}
use bml.Domain.Soa.{NodeSoa, len}

pub get_elem?-append_some {ℓ} :
    {A : Type ℓ} (xs ys : List A) (i : ℕ) {a : A}
    → get_elem? xs i ≡ some a
    → get_elem? (xs ++ ys) i ≡ some a
get_elem?-append_some [] ys i h = cc
get_elem?-append_some (x ∷ xs) ys zero h = h
get_elem?-append_some (x ∷ xs) ys (suc i) h = get_elem?-append_some xs ys i h

pub get_elem?-lt {ℓ} :
    {A : Type ℓ} (xs : List A) (i : ℕ) {a : A} → get_elem? xs i ≡ some a → i < length xs
get_elem?-lt [] i h = cc
get_elem?-lt (x ∷ xs) zero h = omega arith
get_elem?-lt (x ∷ xs) (suc i) h = omega (arith, get_elem?-lt xs i h)

pub get_elem?-some {ℓ} :
    {A : Type ℓ} (xs : List A) (i : ℕ) → i < length xs → (a : A) × (get_elem? xs i ≡ some a)
get_elem?-some [] i h = absurd (omega arith)
get_elem?-some (x ∷ xs) zero h = (x, refl)
get_elem?-some (x ∷ xs) (suc i) h = get_elem?-some xs i (omega arith)

module _ (float : Float) (ctx : EvalContext float) where
  open float use {F64}

  -- One node, from its columns and the values of its operands; `none` is a panic.
  unfoldable pub eval_node :
      (NodeId → Option F64) → Option NodeKind → Option NodeId → Option NodeId → Option F64
  eval_node rec none left right = none
  eval_node rec (some NodeKind.one) left right = some float.one
  eval_node rec (some NodeKind.zero) left right = some float.zero
  eval_node rec (some (NodeKind.var v)) left right = some (get_var float ctx v)
  eval_node rec (some (NodeKind.const c)) left right = some (get_const float ctx c)
  eval_node rec (some NodeKind.bml_op) left right =
      both (bml_base_op float) (bind left rec) (bind right rec)

  -- The fuel bounds the depth of the recursion.
  unfoldable pub evaluate_soa : ℕ → NodeSoa float → NodeId → Option F64
  evaluate_soa zero soa id = none
  evaluate_soa (suc fuel) soa id =
      eval_node (evaluate_soa fuel soa) (get_elem? soa.kinds id) (get_elem? soa.lefts id)
        (get_elem? soa.rights id)

module _ (float : Float) where
  open float use {F64}

  -- Operands stand before the node that applies the operator to them.
  pub record IsWellFormed (soa : NodeSoa float) : Type 0 where
    pub lefts_length : length soa.lefts ≡ length soa.kinds
    pub rights_length : length soa.rights ≡ length soa.kinds
    pub values_length : length soa.values ≡ length soa.kinds
    pub operands :
        (id : NodeId)
        → get_elem? soa.kinds id ≡ some NodeKind.bml_op
        → (l : NodeId) × (r : NodeId) × (get_elem? soa.lefts id ≡ some l)
          × (get_elem? soa.rights id ≡ some r)
          × (l < id)
          × (r < id)

  module _ (ctx : EvalContext float) where
    -- On well-formed columns the evaluation of a node among them neither panics nor runs out of fuel
    -- above the index of the node.
    pub evaluate_soa_total :
        (fuel : ℕ) (soa : NodeSoa float) (id : NodeId)
        → IsWellFormed soa
        → id < len float soa
        → id < fuel
        → (v : F64) × (evaluate_soa float ctx fuel soa id ≡ some v)
    unfolding evaluate_soa eval_node
    evaluate_soa_total zero soa id w h l = absurd (omega arith)
    evaluate_soa_total (suc fuel) soa id w h l =
        go (get_elem?-some soa.kinds id h)
          (λ k lt. evaluate_soa_total fuel soa k w (omega arith) (omega arith))
      where
        go :
            (k : NodeKind) × (get_elem? soa.kinds id ≡ some k)
            → ((k : NodeId) → k < id → (v : F64) × (evaluate_soa float ctx fuel soa k ≡ some v))
            → (v : F64) × (evaluate_soa float ctx (suc fuel) soa id ≡ some v)
        go (NodeKind.one, e) ih = (float.one, rw e)
        go (NodeKind.zero, e) ih = (float.zero, rw e)
        go (NodeKind.var x, e) ih = (get_var float ctx x, rw e)
        go (NodeKind.const x, e) ih = (get_const float ctx x, rw e)
        go (NodeKind.bml_op, e) ih =
            let (l', r', el, er, ll, lr) = w.operands id e in
            let (a, ea) = ih l' ll in
            let (b, eb) = ih r' lr in (bml_base_op float a b, rw (e, el, er) (rw (ea, eb)))

  -- What an append to the columns, and to the pool of constants, leaves in place.
  pub record Extends (soa soa' : NodeSoa float) (ctx ctx' : EvalContext float) : Type 0 where
    pub kinds_kept :
        (i : ℕ) (k : NodeKind) → get_elem? soa.kinds i ≡ some k → get_elem? soa'.kinds i ≡ some k
    pub lefts_kept : (i l : ℕ) → get_elem? soa.lefts i ≡ some l → get_elem? soa'.lefts i ≡ some l
    pub rights_kept : (i r : ℕ) → get_elem? soa.rights i ≡ some r → get_elem? soa'.rights i ≡ some r
    pub inputs_kept : (v : ℕ) → get_var float ctx v ≡ get_var float ctx' v
    pub weights_kept :
        (i c : ℕ)
        → get_elem? soa.kinds i ≡ some (NodeKind.const c)
        → get_const float ctx c ≡ get_const float ctx' c

  -- When the columns and the context grow so that the kinds, operands, inputs and loaded constants
  -- stay, a node that evaluates keeps its value, and more fuel does not change it.
  pub evaluate_soa-Extends :
      (fuel more : ℕ) (soa soa' : NodeSoa float) (ctx ctx' : EvalContext float) (id : NodeId)
      {v : F64}
      → Extends soa soa' ctx ctx'
      → fuel ≤ more
      → evaluate_soa float ctx fuel soa id ≡ some v
      → evaluate_soa float ctx' more soa' id ≡ some v
  unfolding evaluate_soa eval_node
  evaluate_soa-Extends zero more soa soa' ctx ctx' id x le h = cc
  evaluate_soa-Extends (suc fuel) zero soa soa' ctx ctx' id x le h = absurd (omega arith)
  evaluate_soa-Extends (suc fuel) (suc more) soa soa' ctx ctx' id {v} x le h =
      go (Option-cases (get_elem? soa.kinds id))
        (λ k a e. evaluate_soa-Extends fuel more soa soa' ctx ctx' k x (omega arith) e)
    where
      operand :
          (o : Option NodeId)
          → ((k : NodeId) (a : F64)
              → evaluate_soa float ctx fuel soa k ≡ some a
              → evaluate_soa float ctx' more soa' k ≡ some a)
          → (o' : Option NodeId) → ((k : NodeId) → o ≡ some k → o' ≡ some k)
          → (a : F64) → bind o (evaluate_soa float ctx fuel soa) ≡ some a
          → bind o' (evaluate_soa float ctx' more soa') ≡ some a
      operand none ih o' keep a e = cc
      operand (some k) ih o' keep a e = rw (keep k refl) (ih k a e)

      go :
          (get_elem? soa.kinds id ≡ none) ⊎ ((k : NodeKind) × (get_elem? soa.kinds id ≡ some k))
          → ((k : NodeId) (a : F64)
              → evaluate_soa float ctx fuel soa k ≡ some a
              → evaluate_soa float ctx' more soa' k ≡ some a)
          → evaluate_soa float ctx' (suc more) soa' id ≡ some v
      go (inl e) ih = let q = rw e at h in cc
      go (inr (NodeKind.one, e)) ih = let q = rw e at h in rw (x.kinds_kept id NodeKind.one e) q
      go (inr (NodeKind.zero, e)) ih = let q = rw e at h in rw (x.kinds_kept id NodeKind.zero e) q
      go (inr (NodeKind.var n, e)) ih =
          let q = rw e at h in
          rw (x.kinds_kept id (NodeKind.var n) e) (ap some (sym (x.inputs_kept n)) ∙ q)
      go (inr (NodeKind.const c, e)) ih =
          let q = rw e at h in
          rw (x.kinds_kept id (NodeKind.const c) e) (ap some (sym (x.weights_kept id c e)) ∙ q)
      go (inr (NodeKind.bml_op, e)) ih =
          let q = rw e at h in
          rw (x.kinds_kept id NodeKind.bml_op e) (
            joined (Option-cases (bind (get_elem? soa.lefts id) (evaluate_soa float ctx fuel soa)))
              (Option-cases (bind (get_elem? soa.rights id) (evaluate_soa float ctx fuel soa))) q)
        where
          joined :
              (bind (get_elem? soa.lefts id) (evaluate_soa float ctx fuel soa) ≡ none)
                ⊎ ((a : F64) × (bind (get_elem? soa.lefts id) (evaluate_soa float ctx fuel soa)
                      ≡ some a))
              → (bind (get_elem? soa.rights id) (evaluate_soa float ctx fuel soa) ≡ none)
                ⊎ ((a : F64) × (bind (get_elem? soa.rights id) (evaluate_soa float ctx fuel soa)
                      ≡ some a))
              → both
                  (bml_base_op float)
                  (bind (get_elem? soa.lefts id) (evaluate_soa float ctx fuel soa))
                  (bind (get_elem? soa.rights id) (evaluate_soa float ctx fuel soa))
                ≡ some v
              → both
                  (bml_base_op float)
                  (bind (get_elem? soa'.lefts id) (evaluate_soa float ctx' more soa'))
                  (bind (get_elem? soa'.rights id) (evaluate_soa float ctx' more soa'))
                ≡ some v
          joined (inl el) r q = let z = rw el at q in cc
          joined (inr (a, el)) (inl er) q = let z = rw (el, er) at q in cc
          joined (inr (a, el)) (inr (b, er)) q =
              let z = rw (el, er) at q in
              rw
                (
                  operand (get_elem? soa.lefts id) ih (get_elem? soa'.lefts id)
                      (λ k. x.lefts_kept id k) a el,
                  operand (get_elem? soa.rights id) ih (get_elem? soa'.rights id)
                      (λ k. x.rights_kept id k) b er,
                )
                z
