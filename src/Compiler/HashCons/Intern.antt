-- ===== src/Compiler/HashCons/Intern.antt =====
-- The calls of the registry that enter a node under a key: `one`, `zero` and the end of `bml`.
use bml.Prelude.{
  ℕ, ◌^◌, ◌<◌, ◌≡◌, refl, sym, ap, ◌∙◌, subst, true, none, some, List, ◌∷◌, ◌⊎◌, inl, inr, arith,
  Bool-cases, Option-cases, length, get_elem?,
}
use bml.Float.{Float}
use bml.Domain.Ast.{NodeId, NodeKind, Node, get_var, get_const}
use bml.Domain.Soa.{NodeSoa, len, push, as_u32, or_zero}
use bml.Domain.Soa.Eval.{Extends}
use bml.Domain.Soa.Push.{pool-push, kind-push, push-Extends, push-IsWellFormed, len-push}
use bml.Compiler.HashCons.{ConsKey, one_key, zero_key, bml_key, eq_key, find_key, Registry, intern}
use bml.Compiler.HashCons.Valid.{
  eq_key_iff, key_node, HasKey, InRange, IsValid, HasKey-lt, HasKey-Extends, context, Grows,
}
use bml.Compiler.HashCons.Keys.{
  some_eq, Extends-refl, HasKey-push, HasKey-pushed, HasKey-key, HasConst-push,
}

module _ (float : Float) where
  open float use {F64}

  intern_found :
      (reg : Registry float) (k : ConsKey) (new : NodeId × NodeSoa float) (id : NodeId)
      → find_key k reg.table ≡ some id
      → intern float reg k new ≡ (id, reg)
  intern_found reg k new id e = rw (e, intern) refl

  -- A second call with a key returns the node of the first and leaves the registry as it is.
  pub intern-intern :
      (reg : Registry float) (k : ConsKey) (new later : NodeId × NodeSoa float)
      → let (id, reg') = intern float reg k new in intern float reg' k later ≡ (id, reg')
  unfolding find_key
  intern-intern reg k new later = elim (Option-cases (find_key k reg.table)) [
    | inr (id, e) ↦
        subst (λ (r : NodeId × Registry float). intern float r.1 k later ≡ (r.0, r.1))
          (sym (intern_found reg k new id e)) (intern_found reg k later id e)
    | inl e ↦
        let reg' = record reg { soa = new.1; table = (k, new.0) ∷ reg.table } in
        let entered : intern float reg k new ≡ (new.0, reg') = rw (e, intern) refl in
        subst (λ (r : NodeId × Registry float). intern float r.1 k later ≡ (r.0, r.1)) (sym entered)
          (intern_found reg' k later new.0 (rw ((eq_key_iff k k).1 refl) refl))
  ]

  module _ (inputs : List F64) (reg : Registry float) (v : IsValid float reg) where
    pub same-Extends :
        (node : Node)
        → let soa' = push float reg.soa node in
          Extends float reg.soa soa' (context float inputs reg.soa) (context float inputs soa')
    same-Extends node =
        push-Extends float reg.soa node _ _ (λ x. unfold get_var in refl)
          (λ i c h. unfold get_const push in refl)

    -- The registry after a node is pushed for a key that the table lacks.
    pushed-IsValid :
        (k : ConsKey) (id : NodeId)
        → id ≡ len float reg.soa
        → InRange float reg.soa k
        → find_key k reg.table ≡ none
        → IsValid float
            (record reg { soa = push float reg.soa (key_node k id); table = (k, id) ∷ reg.table })
    unfolding find_key
    pushed-IsValid k id e range absent = record {
      well = push-IsWellFormed float reg.soa (key_node k id) v.well (before k range);
      in_pool =
          λ i c h. in_pool i c (kind-push float reg.soa (key_node k id) i (NodeKind.const c) h);
      sound = sound;
      complete = complete;
      consts = λ b c h. HasConst-push float reg.soa (key_node k id) b c (v.consts b c h);
    }
      where
        before :
            (j : ConsKey)
            → InRange float reg.soa j
            → (key_node j id).kind ≡ NodeKind.bml_op
            → (or_zero (key_node j id).left < len float reg.soa)
              × (or_zero (key_node j id).right < len float reg.soa)
        before one_key h q = cc
        before zero_key h q = cc
        before (bml_key l r) h q = h

        not_const : (j : ConsKey) (c : ℕ) → (key_node j id).kind ≡ NodeKind.const c → ⊥
        not_const one_key c q = cc
        not_const zero_key c q = cc
        not_const (bml_key l r) c q = cc

        in_pool :
            (i c : ℕ)
            → (get_elem? reg.soa.kinds i ≡ some (NodeKind.const c))
              ⊎ ((i ≡ length reg.soa.kinds) × ((key_node k id).kind ≡ NodeKind.const c))
            → c < length (push float reg.soa (key_node k id)).const_pool
        in_pool i c (inl h) = rw pool-push (v.in_pool i c h)
        in_pool i c (inr (_, q)) = absurd (not_const k c q)

        new_key : HasKey float (push float reg.soa (key_node k id)) k id
        new_key =
            subst (HasKey float (push float reg.soa (key_node k id)) k) (sym e)
              (HasKey-push float reg.soa k id v.well)

        sound :
            (j : ConsKey) (i : NodeId)
            → find_key j ((k, id) ∷ reg.table) ≡ some i
            → HasKey float (push float reg.soa (key_node k id)) j i
        sound j i h = elim (Bool-cases (eq_key k j)) [
          | inl q ↦
              let kj : k ≡ j = (eq_key_iff k j).0 q in
              let ii : id ≡ i = some_eq (rw q at h) in
              subst (λ x. HasKey float (push float reg.soa (key_node k id)) j x) ii
                (subst (λ x. HasKey float (push float reg.soa (key_node k id)) x id) kj new_key)
          | inr q ↦
              HasKey-Extends float reg.soa _ _ _ j i (same-Extends (key_node k id))
                (v.sound j i (rw q at h))
        ]

        complete :
            (j : ConsKey) (i : NodeId)
            → HasKey float (push float reg.soa (key_node k id)) j i
            → find_key j ((k, id) ∷ reg.table) ≡ some i
        complete j i h = elim (HasKey-pushed float reg.soa (key_node k id) j i v.well h) [
          | inl old ↦ elim (Bool-cases (eq_key k j)) [
            | inl q ↦
                let kj : k ≡ j = (eq_key_iff k j).0 q in
                let hit = v.complete j i old in
                let miss = subst (λ x. find_key x reg.table ≡ none) kj absent in cc
            | inr q ↦ rw q (v.complete j i old)
          ]
          | inr (ii, new) ↦
              let jk : j ≡ k =
                HasKey-key float (push float reg.soa (key_node k id)) j k (len float reg.soa) new
                  (HasKey-push float reg.soa k id v.well) in
              let q : eq_key k j ≡ true = (eq_key_iff k j).1 (sym jk) in rw q (ap some (e ∙ sym ii))
        ]

    pub intern_lem :
        (k : ConsKey)
        → len float reg.soa < 2 ^ 32
        → InRange float reg.soa k
        → let (id, reg') = intern float reg k (
          as_u32 (len float reg.soa),
          push float reg.soa (key_node k (as_u32 (len float reg.soa))),
        ) in
          Grows float inputs reg reg' id × HasKey float reg'.soa k id
    intern_lem k small range = elim (Option-cases (find_key k reg.table)) [
      | inr (id, e) ↦
          rw (e, intern)
            (
              record {
                valid = v;
                inside = HasKey-lt float reg.soa k id (v.sound k id e);
                kept = Extends-refl float reg.soa _;
              },
              v.sound k id e,
            )
      | inl e ↦
          let n = as_u32 (len float reg.soa) in
          let is_len : n ≡ len float reg.soa = omega arith in
          rw (e, intern)
            (
              record {
                valid = pushed-IsValid k n is_len range e;
                inside = omega (arith, is_len, len-push float reg.soa (key_node k n));
                kept = same-Extends (key_node k n);
              },
              subst (HasKey float (push float reg.soa (key_node k n)) k) (sym is_len)
                  (HasKey-push float reg.soa k n v.well),
            )
    ]
