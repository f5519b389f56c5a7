-- ===== src/Compiler/HashCons/Valid.antt =====
-- The invariant of the registry of crates/compiler/src/hash_cons.rs, and the keys of its nodes.
use bml.Prelude.{ℕ, ◌<◌, ◌≡◌, refl, true, some, List, [], ◌↔◌, arith, length, get_elem?}
use bml.Float.{Float}
use bml.Domain.Ast.{NodeId, NodeKind, Node, EvalContext, one_node, zero_node, bml_node}
use bml.Domain.Soa.{NodeSoa, len}
use bml.Domain.Soa.Eval.{IsWellFormed, Extends, get_elem?-lt}
use bml.Compiler.HashCons.{
  ConsKey, one_key, zero_key, bml_key, eq_key, find_key, find_bits, Registry, empty,
}

pub eq_key_iff : (j k : ConsKey) → (eq_key j k ≡ true) ↔ (j ≡ k)
unfolding eq_key
eq_key_iff one_key one_key = (λ h. refl, λ h. refl)
eq_key_iff one_key zero_key = (λ h. cc, λ h. cc)
eq_key_iff one_key (bml_key l r) = (λ h. cc, λ h. cc)
eq_key_iff zero_key one_key = (λ h. cc, λ h. cc)
eq_key_iff zero_key zero_key = (λ h. refl, λ h. refl)
eq_key_iff zero_key (bml_key l r) = (λ h. cc, λ h. cc)
eq_key_iff (bml_key l r) one_key = (λ h. cc, λ h. cc)
eq_key_iff (bml_key l r) zero_key = (λ h. cc, λ h. cc)
eq_key_iff (bml_key l r) (bml_key l' r') = (λ h. ground arith, λ h. ground arith)

-- The node that is pushed for a key.
abbrev pub key_node : ConsKey → NodeId → Node
key_node one_key id = one_node id
key_node zero_key id = zero_node id
key_node (bml_key l r) id = bml_node id l r

module _ (float : Float) where
  open float use {F64}

  -- The node `id` is the one that the key describes.
  abbrev pub HasKey : NodeSoa float → ConsKey → NodeId → Type 0
  HasKey soa one_key id = get_elem? soa.kinds id ≡ some NodeKind.one
  HasKey soa zero_key id = get_elem? soa.kinds id ≡ some NodeKind.zero
  HasKey soa (bml_key l r) id =
      (get_elem? soa.kinds id ≡ some NodeKind.bml_op)
      × (get_elem? soa.lefts id ≡ some l)
      × (get_elem? soa.rights id ≡ some r)

  -- The operands of a key stand among the nodes.
  abbrev pub InRange : NodeSoa float → ConsKey → Type 0
  InRange soa one_key = Unit
  InRange soa zero_key = Unit
  InRange soa (bml_key l r) = (l < len float soa) × (r < len float soa)

  -- A constant of the pool, with a node that loads it.
  abbrev pub HasConst : NodeSoa float → ℕ → ℕ → Type 0
  HasConst soa bits c =
      (v : F64) × (i : ℕ) × (get_elem? soa.const_pool c ≡ some v)
      × (float.to_bits v ≡ bits)
      × (get_elem? soa.kinds i ≡ some (NodeKind.const c))

  -- The table holds exactly the nodes with a key, so no two nodes have the same one.
  pub record IsValid (reg : Registry float) : Type 0 where
    pub well : IsWellFormed float reg.soa
    pub in_pool :
        (i c : ℕ)
        → get_elem? reg.soa.kinds i ≡ some (NodeKind.const c)
        → c < length reg.soa.const_pool
    pub sound : (k : ConsKey) (id : NodeId) → find_key k reg.table ≡ some id → HasKey reg.soa k id
    pub complete :
        (k : ConsKey) (id : NodeId) → HasKey reg.soa k id → find_key k reg.table ≡ some id
    pub consts : (b c : ℕ) → find_bits b reg.const_table ≡ some c → HasConst reg.soa b c

  -- A fresh registry is valid.
  pub empty-IsValid : IsValid (empty float)
  unfolding find_key find_bits
  empty-IsValid = record {
    well = record {
      lefts_length = refl;
      rights_length = refl;
      values_length = refl;
      operands = λ id h. cc;
    };
    in_pool = λ i c h. cc;
    sound = λ k id h. cc;
    complete = none_yet;
    consts = λ b c h. cc;
  }
    where
      none_yet :
          (k : ConsKey) (id : NodeId) → HasKey (empty float).soa k id → find_key k [] ≡ some id
      none_yet one_key id h = cc
      none_yet zero_key id h = cc
      none_yet (bml_key l r) id h = let p = h.0 in cc

  -- Two nodes of a valid registry with the same key are one node.
  pub HasKey-unique :
      (reg : Registry float) (k : ConsKey) (i j : NodeId)
      → IsValid reg
      → HasKey reg.soa k i
      → HasKey reg.soa k j
      → i ≡ j
  HasKey-unique reg k i j v hi hj = let a = v.complete k i hi in let b = v.complete k j hj in cc

  pub HasKey-lt :
      (soa : NodeSoa float) (k : ConsKey) (id : NodeId) → HasKey soa k id → id < len float soa
  HasKey-lt soa one_key id h = get_elem?-lt soa.kinds id h
  HasKey-lt soa zero_key id h = get_elem?-lt soa.kinds id h
  HasKey-lt soa (bml_key l r) id h = get_elem?-lt soa.kinds id h.0

  pub HasKey-Extends :
      (soa soa' : NodeSoa float) (ctx ctx' : EvalContext float) (k : ConsKey) (id : NodeId)
      → Extends float soa soa' ctx ctx'
      → HasKey soa k id
      → HasKey soa' k id
  HasKey-Extends soa soa' ctx ctx' one_key id x h = x.kinds_kept id _ h
  HasKey-Extends soa soa' ctx ctx' zero_key id x h = x.kinds_kept id _ h
  HasKey-Extends soa soa' ctx ctx' (bml_key l r) id x h =
      (x.kinds_kept id _ h.0, x.lefts_kept id l h.1, x.rights_kept id r h.2)

  -- The value of a node of the registry under the given inputs.
  abbrev pub context : List F64 → NodeSoa float → EvalContext float
  context inputs soa = record { inputs = inputs; weights = soa.const_pool }

  -- What a call does: the registry stays valid, the node returned is one of it, and every earlier
  -- node keeps its kind, operands and value.
  pub record Grows (inputs : List F64) (reg reg' : Registry float) (id : NodeId) : Type 0 where
    pub valid : IsValid reg'
    pub inside : id < len float reg'.soa
    pub kept : Extends float reg.soa reg'.soa (context inputs reg.soa) (context inputs reg'.soa)
