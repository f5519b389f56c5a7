-- ===== src/Compiler/HashCons/Const.antt =====
-- The calls of crates/compiler/src/hash_cons.rs that push a node without a key: `var`, and a new
-- constant of `const_value`.
use bml.Prelude.{
  ℕ, zero, suc, ◌<◌, ◌≡◌, ◌≢◌, refl, sym, ap, ◌∙◌, some, List, [], ◌∷◌, ◌++◌, ◌⊎◌, inl, inr, arith,
  length, get_elem?, get_or, length-append,
}
use bml.Float.{Float}
use bml.Domain.Ast.{NodeId, NodeKind, Node, get_var, get_const}
use bml.Domain.Soa.{NodeSoa, len, push}
use bml.Domain.Soa.Eval.{get_elem?-some, IsWellFormed, Extends, get_elem?-append_some}
use bml.Domain.Soa.Push.{pool-push, kind-push, push_kind, push-Extends, push-IsWellFormed}
use bml.Compiler.HashCons.{ConsKey, one_key, zero_key, bml_key, find_key, find_bits, Registry}
use bml.Compiler.HashCons.Valid.{
  HasKey-Extends, key_node, HasKey, HasConst, IsValid, HasKey-Extends, context,
}
use bml.Compiler.HashCons.Keys.{some_eq, HasKey-pushed}

pub get_or_of_get_elem? {ℓ} :
    {A : Type ℓ} (xs : List A) (i : ℕ) (d : A) {a : A} → get_elem? xs i ≡ some a → get_or xs i d ≡ a
get_or_of_get_elem? [] i d h = cc
get_or_of_get_elem? (x ∷ xs) zero d h = cc
get_or_of_get_elem? (x ∷ xs) (suc i) d h = get_or_of_get_elem? xs i d h

module _ (float : Float) (reg : Registry float) (v : IsValid float reg) where
  open float use {F64}

  abbrev pub pooled : List F64 → NodeSoa float
  pooled more = record reg.soa { const_pool = reg.soa.const_pool ++ more }

  pooled-IsWellFormed : (more : List F64) → IsWellFormed float (pooled more)
  pooled-IsWellFormed more = record {
    lefts_length = v.well.lefts_length;
    rights_length = v.well.rights_length;
    values_length = v.well.values_length;
    operands = v.well.operands;
  }

  pub pooled-Extends :
      (inputs : List F64) (more : List F64) (node : Node)
      → let soa' = push float (pooled more) node in
        Extends float reg.soa soa' (context float inputs reg.soa) (context float inputs soa')
  unfolding get_var get_const
  pooled-Extends inputs more node = record {
    kinds_kept = x.kinds_kept;
    lefts_kept = x.lefts_kept;
    rights_kept = x.rights_kept;
    inputs_kept = λ i. refl;
    weights_kept = λ i c h. kept c (get_elem?-some reg.soa.const_pool c (v.in_pool i c h));
  }
    where
      x :
          Extends float
            (pooled more)
            (push float (pooled more) node)
            (context float inputs (pooled more))
            (context float inputs (push float (pooled more) node))
      x = push-Extends float (pooled more) node _ _ (λ w. refl) (λ i c h. rw pool-push)

      kept :
          (c : ℕ)
          → (a : F64) × (get_elem? reg.soa.const_pool c ≡ some a)
          → get_or reg.soa.const_pool c float.nan
            ≡ get_or (push float (pooled more) node).const_pool c float.nan
      kept c (a, e) =
          get_or_of_get_elem? reg.soa.const_pool c float.nan e
          ∙ sym (
              get_or_of_get_elem? (reg.soa.const_pool ++ more) c float.nan
                (get_elem?-append_some reg.soa.const_pool more c e))
          ∙ ap (λ p. get_or p c float.nan) (sym (pool-push float (pooled more) node))

  -- The registry after a node without a key is pushed, the pool grown by `more`.
  pub keyless-IsValid :
      (more : List F64) (node : Node) (const_table : List (ℕ × ℕ))
      → ((k : ConsKey) → (key_node k 0).kind ≢ node.kind)
      → ((c : ℕ) → node.kind ≡ NodeKind.const c → c < length (reg.soa.const_pool ++ more))
      → ((b c : ℕ)
          → find_bits b const_table ≡ some c
          → HasConst float (push float (pooled more) node) b c)
      → IsValid float
          (record reg { soa = push float (pooled more) node; const_table = const_table })
  keyless-IsValid more node const_table nokey inside consts = record {
    well = push-IsWellFormed float (pooled more) node w (λ e. absurd (nokey (bml_key 0 0) (sym e)));
    in_pool = λ i c h. in_pool i c (kind-push float (pooled more) node i (NodeKind.const c) h);
    sound = λ k id h. HasKey-pool k id (v.sound k id h);
    complete = λ k id h. old k id (HasKey-pushed float (pooled more) node k id w h);
    consts = consts;
  }
    where
      w : IsWellFormed float (pooled more)
      w = pooled-IsWellFormed more

      in_pool :
          (i c : ℕ)
          → (get_elem? reg.soa.kinds i ≡ some (NodeKind.const c))
            ⊎ ((i ≡ length reg.soa.kinds) × (node.kind ≡ NodeKind.const c))
          → c < length (push float (pooled more) node).const_pool
      in_pool i c (inl h) =
          rw pool-push (omega (arith, length-append {_} reg.soa.const_pool more, v.in_pool i c h))
      in_pool i c (inr (_, q)) = rw pool-push (inside c q)

      HasKey-pool :
          (k : ConsKey) (id : NodeId)
          → HasKey float reg.soa k id
          → HasKey float (push float (pooled more) node) k id
      HasKey-pool k id h = HasKey-Extends float reg.soa _ _ _ k id (pooled-Extends [] more node) h

      clash : (k : ConsKey) → HasKey float (push float (pooled more) node) k (len float reg.soa) → ⊥
      clash one_key h = nokey one_key (sym (some_eq (sym (push_kind float (pooled more) node) ∙ h)))
      clash zero_key h =
          nokey zero_key (sym (some_eq (sym (push_kind float (pooled more) node) ∙ h)))
      clash (bml_key l r) h =
          nokey (bml_key 0 0) (sym (some_eq (sym (push_kind float (pooled more) node) ∙ h.0)))

      back :
          (k : ConsKey) (id : NodeId) → HasKey float (pooled more) k id → HasKey float reg.soa k id
      back one_key id h = h
      back zero_key id h = h
      back (bml_key l r) id h = h

      old :
          (k : ConsKey) (id : NodeId)
          → (HasKey float (pooled more) k id)
            ⊎ ((id ≡ len float reg.soa)
                × HasKey float (push float (pooled more) node) k (len float reg.soa))
          → find_key k reg.table ≡ some id
      old k id (inl h) = v.complete k id (back k id h)
      old k id (inr (_, h)) = absurd (clash k h)
