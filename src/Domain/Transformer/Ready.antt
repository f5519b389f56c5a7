-- ===== src/Domain/Transformer/Ready.antt =====
-- The columns of `BMLTransformer` in crates/domain/src/transformer.rs whose constants are all of their own
-- pool: those that its methods, but for `external_constant`, make.
use bml.Prelude.{
  ℕ, zero, suc, ◌+◌, ◌≤◌, ◌<◌, ◌≡◌, some, List, [], ◌∷◌, ◌++◌, ◌⊎◌, inl, inr, arith, length,
  get_elem?, length-append,
}
use bml.Float.{Float}
use bml.Domain.Ast.{NodeKind, Node}
use bml.Domain.Soa.{NodeSoa, or_zero, len, push}
use bml.Domain.Transformer.{append_constant}
use bml.Domain.Transformer.Kept.{Balanced}

module _ (float : Float) where
  open float use {F64}

  pub record Ready (soa : NodeSoa float) : Type 0 where
    pub balanced : Balanced float soa
    -- A constant is in the pool, and has a node.
    pub constants_known :
        (i c : ℕ) → get_elem? soa.kinds i ≡ some (NodeKind.const c) → c < length soa.const_pool
    pub pool_fits : length soa.const_pool ≤ len float soa

  get_elem?-snoc :
      {A : Type 0} (xs : List A) (y : A) (i : ℕ) {a : A}
      → get_elem? (xs ++ y ∷ []) i ≡ some a
      → (get_elem? xs i ≡ some a) ⊎ (y ≡ a)
  get_elem?-snoc [] y zero h = inr cc
  get_elem?-snoc [] y (suc i) h = cc
  get_elem?-snoc (x ∷ xs) y zero h = inl h
  get_elem?-snoc (x ∷ xs) y (suc i) h = get_elem?-snoc xs y i h

  length-snoc : {A : Type 0} (xs : List A) (y : A) → length (xs ++ y ∷ []) ≡ length xs + 1
  length-snoc xs y = length-append {_} xs (y ∷ [])

  -- A node whose constant is in the pool may be pushed, after a constant or none.
  pub Ready-push :
      (soa : NodeSoa float) (node : Node)
      → Ready soa
      → ((c : ℕ) → node.kind ≡ NodeKind.const c → c < length soa.const_pool)
      → Ready (push float soa node)
  unfolding push
  Ready-push soa node r known = record {
    balanced = record {
      lefts_length = omega (
        arith,
        r.balanced.lefts_length,
        length-snoc soa.lefts (or_zero node.left),
        length-snoc soa.kinds node.kind,
      );
      rights_length = omega (
        arith,
        r.balanced.rights_length,
        length-snoc soa.rights (or_zero node.right),
        length-snoc soa.kinds node.kind,
      );
    };
    constants_known = λ i c h. elim (get_elem?-snoc soa.kinds node.kind i h) [
      | inl e ↦ r.constants_known i c e
      | inr e ↦ known c e
    ];
    pool_fits = omega (arith, r.pool_fits, length-snoc soa.kinds node.kind);
  }

  -- A constant and its node.
  pub Ready-constant :
      (soa : NodeSoa float) (x : F64) (node : Node)
      → Ready soa
      → ((c : ℕ) → node.kind ≡ NodeKind.const c → c ≤ length soa.const_pool)
      → Ready (push float (append_constant float x soa) node)
  unfolding push append_constant
  Ready-constant soa x node r known = record {
    balanced = record {
      lefts_length = omega (
        arith,
        r.balanced.lefts_length,
        length-snoc soa.lefts (or_zero node.left),
        length-snoc soa.kinds node.kind,
      );
      rights_length = omega (
        arith,
        r.balanced.rights_length,
        length-snoc soa.rights (or_zero node.right),
        length-snoc soa.kinds node.kind,
      );
    };
    constants_known = λ i c h. elim (get_elem?-snoc soa.kinds node.kind i h) [
      | inl e ↦ omega (arith, r.constants_known i c e, length-snoc soa.const_pool x)
      | inr e ↦ omega (arith, known c e, length-snoc soa.const_pool x)
    ];
    pool_fits =
        omega (arith, r.pool_fits, length-snoc soa.const_pool x, length-snoc soa.kinds node.kind);
  }
