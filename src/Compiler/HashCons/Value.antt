-- ===== src/Compiler/HashCons/Value.antt =====
-- The method `const_value` of the registry of crates/compiler/src/hash_cons.rs, and the values of
-- nodes.
use bml.Prelude.{
  ℕ, ◌^◌, ◌<◌, ◌≡◌, ◌≢◌, sym, ap, ◌∙◌, Option, none, some, List, [], ◌∷◌, ◌++◌, inl, inr, arith,
  ◌==◌, ==_iff, Bool-cases, Option-cases, length, get_elem?, length-append, get_elem?-append_end,
}
use bml.Float.{Float}
use bml.Domain.Ast.{NodeId, NodeKind, get_const, const_node as const_at}
use bml.Domain.Soa.{len, push, push_const, as_u32}
use bml.Domain.Soa.Eval.{get_elem?-lt, get_elem?-append_some, evaluate_soa}
use bml.Domain.Soa.Push.{pool-push, push_kind, len-push}
use bml.Compiler.HashCons.{
  ConsKey, one_key, zero_key, bml_key, find_bits, Registry, new_const, const_value, find_const,
}
use bml.Compiler.HashCons.Valid.{key_node, HasConst, IsValid, context, Grows}
use bml.Compiler.HashCons.Keys.{some_eq, Extends-refl}
use bml.Compiler.HashCons.Const.{pooled, pooled-Extends, keyless-IsValid, get_or_of_get_elem?}
use bml.Compiler.HashCons.Lookup.{find_const_sound, find_const_total, evaluate-const}

module _ (float : Float) (inputs : List (float.F64)) where
  open float use {F64}

  -- The value of a node under the inputs and the registry's own constants.
  abbrev pub value : Registry float → NodeId → Option F64
  value reg id = evaluate_soa float (context float inputs reg.soa) (len float reg.soa) reg.soa id

  -- A node that loads the constant `x`.
  abbrev pub Loads : Registry float → NodeId → F64 → Type 0
  Loads reg id x =
      (c : ℕ) × (get_elem? reg.soa.kinds id ≡ some (NodeKind.const c))
      × (get_elem? reg.soa.const_pool c ≡ some x)

  pub Loads-value :
      (reg : Registry float) (id : NodeId) {x : F64} → Loads reg id x → value reg id ≡ some x
  Loads-value reg id (c, k, p) =
      evaluate-const float reg.soa _ (len float reg.soa) id c
        (omega (arith, get_elem?-lt reg.soa.kinds id k)) k
      ∙ ap some (unfold get_const in get_or_of_get_elem? reg.soa.const_pool c float.nan p)

  const-nokey : (n c : ℕ) (k : ConsKey) → (key_node k 0).kind ≢ (const_at n c).kind
  const-nokey n c one_key h = cc
  const-nokey n c zero_key h = cc
  const-nokey n c (bml_key l r) h = cc

  module _ (reg : Registry float) (v : IsValid float reg) where
    new_const-consts :
        (x : F64) (n pc : ℕ)
        → pc ≡ length reg.soa.const_pool
        → (b c : ℕ) → find_bits b ((float.to_bits x, pc) ∷ reg.const_table) ≡ some c
        → HasConst float (push float (pooled float reg v (x ∷ [])) (const_at n pc)) b c
    unfolding find_bits
    new_const-consts x n pc e b c h = elim (Bool-cases (float.to_bits x == b)) [
      | inl q ↦
          let cc' : pc ≡ c = some_eq (rw q at h) in
          (
            x,
            len float reg.soa,
            rw pool-push (
                ap (get_elem? (reg.soa.const_pool ++ x ∷ [])) (sym cc' ∙ e)
                ∙ get_elem?-append_end reg.soa.const_pool x),
            (==_iff (float.to_bits x) b).0 q,
            push_kind float (pooled float reg v (x ∷ [])) (const_at n pc)
                ∙ ap (λ y. some (NodeKind.const y)) cc',
          )
      | inr q ↦
          let (y, i, ey, eb, ek) = v.consts b c (rw q at h) in
          (
            y,
            i,
            rw pool-push (get_elem?-append_some reg.soa.const_pool (x ∷ []) c ey),
            eb,
            (pooled-Extends float reg v inputs (x ∷ []) (const_at n pc)).kinds_kept i
                (NodeKind.const c) ek,
          )
    ]

    -- A new constant loads its value.
    new_const-Grows :
        (x : F64)
        → len float reg.soa < 2 ^ 32
        → length reg.soa.const_pool < 2 ^ 32
        → let (id, reg') = new_const float reg x in Grows float inputs reg reg' id × Loads reg' id x
    unfolding new_const push_const
    new_const-Grows x small fits =
        let n = as_u32 (len float reg.soa) in
        let pc = as_u32 (length reg.soa.const_pool) in
        let en : n ≡ len float reg.soa = omega arith in
        let ep : pc ≡ length reg.soa.const_pool = omega arith in
        let base = pooled float reg v (x ∷ []) in
        (
          record {
            valid =
                keyless-IsValid float reg v (x ∷ []) (const_at n pc)
                  ((float.to_bits x, pc) ∷ reg.const_table) (const-nokey n pc)
                  (λ c e. fits_pool c pc ep (const_eq e)) (new_const-consts x n pc ep);
            inside = omega (arith, en, len-push float base (const_at n pc));
            kept = pooled-Extends float reg v inputs (x ∷ []) (const_at n pc);
          },
          (
            pc,
            ap (get_elem? (push float base (const_at n pc)).kinds) en
                ∙ push_kind float base (const_at n pc),
            rw pool-push (
                ap (get_elem? (reg.soa.const_pool ++ x ∷ [])) ep
                ∙ get_elem?-append_end reg.soa.const_pool x),
          ),
        )
      where
        const_eq : {a b : ℕ} → NodeKind.const a ≡ NodeKind.const b → a ≡ b
        const_eq h = cc

        fits_pool :
            (c pc : ℕ)
            → pc ≡ length reg.soa.const_pool
            → pc ≡ c
            → c < length (reg.soa.const_pool ++ x ∷ [])
        fits_pool c pc e q = omega (arith, length-append {_} reg.soa.const_pool (x ∷ []))

    -- On a valid registry of fewer than `2 ^ 32` nodes and constants, `const_value` does not panic: it
    -- returns a node of the resulting valid registry that loads the value given, and every earlier
    -- node keeps its kind, operands and value.
    pub const_value-Loads :
        (x : F64)
        → len float reg.soa < 2 ^ 32
        → length reg.soa.const_pool < 2 ^ 32
        → (id : NodeId) × (reg' : Registry float) × (const_value float reg x ≡ some (id, reg'))
          × Grows float inputs reg reg' id
          × Loads reg' id x
    unfolding const_value
    const_value-Loads x small fits =
        elim (Option-cases (find_bits (float.to_bits x) reg.const_table)) [
          | inl e ↦
              let (g, l) = new_const-Grows x small fits in
              ((new_const float reg x).0, (new_const float reg x).1, rw (e, const_value), g, l)
          | inr (c, e) ↦
              let (y, i, ey, eb, ek) = v.consts (float.to_bits x) c e in
              let same : y ≡ x = float.to_bits-injective y x eb in
              let (o, eo) =
                find_const_total float reg.soa c (len float reg.soa) 0 v.well (omega arith)
                  (omega arith) in
              found c e (ey ∙ ap some same) o eo
        ]
      where
        found :
            (c : ℕ)
            → find_bits (float.to_bits x) reg.const_table ≡ some c
            → get_elem? reg.soa.const_pool c ≡ some x
            → (o : Option NodeId) → find_const float reg.soa c (len float reg.soa) 0 ≡ some o
            → (id : NodeId) × (reg' : Registry float) × (const_value float reg x ≡ some (id, reg'))
              × Grows float inputs reg reg' id
              × Loads reg' id x
        found c e p none eo =
            let (g, l) = new_const-Grows x small fits in
            (
              (new_const float reg x).0,
              (new_const float reg x).1,
              rw (e, const_value) (rw eo),
              g,
              l,
            )
        found c e p (some id) eo =
            let k = find_const_sound float reg.soa c (len float reg.soa) 0 id eo in
            (
              id,
              reg,
              rw (e, const_value) (rw eo),
              record {
                valid = v;
                inside = get_elem?-lt reg.soa.kinds id k;
                kept = Extends-refl float reg.soa _;
              },
              (c, k, p),
            )
