-- ===== src/Domain/Transformer/Kept.antt =====
-- What every program of crates/domain/src/transformer.rs leaves in place.
use bml.Prelude.{ℕ, ◌≤◌, ◌≡◌, refl, some, [], ◌∷◌, arith, length, get_elem?, length-append}
use bml.Float.{Float}
use bml.Domain.Ast.{NodeKind, Node}
use bml.Domain.Soa.{NodeSoa, as_u32, or_zero, len, push, push_one, push_var, push_const, push_bml}
use bml.Domain.Soa.Eval.{get_elem?-append_some}
use bml.Domain.Transformer.{
  Call, call_one, call_var, call_const, call_bml, perform, append_constant, Build, done, call, pool,
  run, ◌>>=◌,
}

module _ (float : Float) where
  open float use {F64}

  -- The columns have one length.
  pub record Balanced (soa : NodeSoa float) : Type 0 where
    pub lefts_length : length soa.lefts ≡ length soa.kinds
    pub rights_length : length soa.rights ≡ length soa.kinds

  -- The columns and the pool of `soa` begin those of `soa'`.
  pub record Begins (soa soa' : NodeSoa float) : Type 0 where
    pub longer : len float soa ≤ len float soa'
    pub kinds_kept :
        (i : ℕ) (k : NodeKind) → get_elem? soa.kinds i ≡ some k → get_elem? soa'.kinds i ≡ some k
    pub lefts_kept : (i l : ℕ) → get_elem? soa.lefts i ≡ some l → get_elem? soa'.lefts i ≡ some l
    pub rights_kept : (i r : ℕ) → get_elem? soa.rights i ≡ some r → get_elem? soa'.rights i ≡ some r
    pub pool_kept :
        (i : ℕ) (x : F64)
        → get_elem? soa.const_pool i ≡ some x
        → get_elem? soa'.const_pool i ≡ some x

  pub Begins-refl : (soa : NodeSoa float) → Begins soa soa
  Begins-refl soa = record {
    longer = omega arith;
    kinds_kept = λ i k h. h;
    lefts_kept = λ i k h. h;
    rights_kept = λ i k h. h;
    pool_kept = λ i k h. h;
  }

  pub Begins-trans : {a b c : NodeSoa float} → Begins a b → Begins b c → Begins a c
  Begins-trans x y = record {
    longer = omega (arith, x.longer, y.longer);
    kinds_kept = λ i k h. y.kinds_kept i k (x.kinds_kept i k h);
    lefts_kept = λ i k h. y.lefts_kept i k (x.lefts_kept i k h);
    rights_kept = λ i k h. y.rights_kept i k (x.rights_kept i k h);
    pool_kept = λ i k h. y.pool_kept i k (x.pool_kept i k h);
  }

  abbrev Kept : NodeSoa float → NodeSoa float → Type 0
  Kept soa soa' = Begins soa soa' × (Balanced soa → Balanced soa')

  push-Kept : (soa : NodeSoa float) (node : Node) → Kept soa (push float soa node)
  unfolding push
  push-Kept soa node = (
    record {
      longer = omega (arith, length-append {_} soa.kinds (node.kind ∷ []));
      kinds_kept = λ i k h. get_elem?-append_some soa.kinds _ i h;
      lefts_kept = λ i k h. get_elem?-append_some soa.lefts _ i h;
      rights_kept = λ i k h. get_elem?-append_some soa.rights _ i h;
      pool_kept = λ i k h. h;
    },
    λ b. record {
      lefts_length = omega (
        arith,
        b.lefts_length,
        length-append {_} soa.lefts (or_zero node.left ∷ []),
        length-append {_} soa.kinds (node.kind ∷ []),
      );
      rights_length = omega (
        arith,
        b.rights_length,
        length-append {_} soa.rights (or_zero node.right ∷ []),
        length-append {_} soa.kinds (node.kind ∷ []),
      );
    },
  )

  perform-Kept : (c : Call) (soa : NodeSoa float) → Kept soa (perform float c soa).1
  unfolding perform push_one push_var push_const push_bml
  perform-Kept call_one soa = push-Kept soa _
  perform-Kept (call_var id) soa = push-Kept soa _
  perform-Kept (call_const id) soa = push-Kept soa _
  perform-Kept (call_bml l r) soa = push-Kept soa _

  append_constant-Kept : (x : F64) (soa : NodeSoa float) → Kept soa (append_constant float x soa)
  unfolding append_constant
  append_constant-Kept x soa = (
    record {
      longer = omega arith;
      kinds_kept = λ i k h. h;
      lefts_kept = λ i k h. h;
      rights_kept = λ i k h. h;
      pool_kept = λ i y h. get_elem?-append_some soa.const_pool (x ∷ []) i h;
    },
    λ b. record { lefts_length = b.lefts_length; rights_length = b.rights_length },
  )

  Kept-trans : {a b c : NodeSoa float} → Kept a b → Kept b c → Kept a c
  Kept-trans x y = (Begins-trans x.0 y.0, λ h. y.1 (x.1 h))

  -- Every program only appends to the columns and to the pool.
  pub run-Kept :
      {A : Type 0} (m : Build float A) (soa : NodeSoa float) → Kept soa (run float m soa).1
  unfolding run
  run-Kept (done a) soa = (Begins-refl soa, λ b. b)
  run-Kept (call c next) soa =
      Kept-trans (perform-Kept c soa)
        (run-Kept (next (perform float c soa).0) (perform float c soa).1)
  run-Kept (pool x next) soa =
      Kept-trans (append_constant-Kept x soa)
        (run-Kept (next (as_u32 (length soa.const_pool))) (append_constant float x soa))

  pub run-bind :
      {A B : Type 0} (m : Build float A) (k : A → Build float B) (soa : NodeSoa float)
      → run float (m >>= k) soa ≡ run float (k (run float m soa).0) (run float m soa).1
  unfolding run ◌>>=◌
  run-bind (done a) k soa = refl
  run-bind (call c next) k soa = run-bind (next (perform float c soa).0) k (perform float c soa).1
  run-bind (pool x next) k soa =
      run-bind (next (as_u32 (length soa.const_pool))) k (append_constant float x soa)
