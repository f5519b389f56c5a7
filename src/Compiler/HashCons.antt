-- ===== src/Compiler/HashCons.antt =====
-- crates/compiler/src/hash_cons.rs: the registry of shared nodes. A `HashMap` is
-- a list of entries in which the newest for a key counts. `none` is a panic, of an index out of
-- range.
pub mod Valid
pub mod Keys
pub mod Intern
pub mod Const
pub mod Lookup
pub mod Value
pub mod Fold
use bml.Prelude.{
  ℕ, zero, suc, ◌+◌, Bool, true, false, ◌&&◌, Option, none, some, List, [], ◌∷◌, ◌++◌, ◌==◌,
  if◌then◌else◌, length, get_elem?,
}
use bml.Float.{Float}
use bml.Domain.Ast.{bind, both, NodeId, NodeKind}
use bml.Domain.Operator.{bml_base_op}
use bml.Domain.Soa.{
  NodeSoa, new, len, get, push_one, push_zero, push_var, push_const, push_bml, as_u32,
}

pub data ConsKey : Type 0 where
  one_key : ConsKey
  zero_key : ConsKey
  bml_key : NodeId → NodeId → ConsKey

-- The derived `PartialEq`.
unfoldable pub eq_key : ConsKey → ConsKey → Bool
eq_key one_key one_key = true
eq_key zero_key zero_key = true
eq_key (bml_key l r) (bml_key l' r') = l == l' && r == r'
eq_key _ _ = false

unfoldable pub find_key : ConsKey → List (ConsKey × NodeId) → Option NodeId
find_key k [] = none
find_key k ((j, id) ∷ table) = if eq_key j k then some id else find_key k table

unfoldable pub find_bits : ℕ → List (ℕ × ℕ) → Option ℕ
find_bits k [] = none
find_bits k ((j, id) ∷ table) = if j == k then some id else find_bits k table

-- Whether a node is the constant `const_id`.
unfoldable pub if_const {ℓ} : {A : Type ℓ} → ℕ → NodeKind → A → A → A
if_const const_id (NodeKind.const c) yes_case rest = if c == const_id then yes_case else rest
if_const const_id NodeKind.one yes_case rest = rest
if_const const_id NodeKind.zero yes_case rest = rest
if_const const_id (NodeKind.var v) yes_case rest = rest
if_const const_id NodeKind.bml_op yes_case rest = rest

module _ (float : Float) where
  open float use {F64}

  pub record Registry : Type 0 where
    pub soa : NodeSoa float
    pub table : List (ConsKey × NodeId)
    pub const_table : List (ℕ × ℕ)

  abbrev pub empty : Registry
  empty = record { soa = new float; table = []; const_table = [] }

  -- A call returns the node and the new registry.
  abbrev pub Step : Type 0
  Step = Option (NodeId × Registry)

  -- The node of a key: the one in the table, or a new one, entered there.
  abbrev pub intern : Registry → ConsKey → NodeId × NodeSoa float → NodeId × Registry
  intern reg key (id, soa) = elim (find_key key reg.table) [
    | some old ↦ (old, reg)
    | none ↦ (id, record reg { soa = soa; table = (key, id) ∷ reg.table })
  ]

  unfoldable pub one_node : Registry → NodeId × Registry
  one_node reg = intern reg one_key (push_one float reg.soa)

  unfoldable pub zero_node : Registry → NodeId × Registry
  zero_node reg = intern reg zero_key (push_zero float reg.soa)

  unfoldable pub var_node : Registry → ℕ → NodeId × Registry
  var_node reg var_id =
      let (id, soa) = push_var float reg.soa var_id in (id, record reg { soa = soa })

  -- The loop of `const_value` over the nodes, from `i` on.
  unfoldable pub find_const : NodeSoa float → ℕ → ℕ → ℕ → Option (Option NodeId)
  unfolding if_const
  find_const soa const_id zero i = some none
  find_const soa const_id (suc n) i = bind (get float soa (as_u32 i)) λ node.
      if_const const_id node.kind (some (some (as_u32 i))) (find_const soa const_id n (i + 1))

  -- A new constant, at the end of the pool.
  unfoldable pub new_const : Registry → F64 → NodeId × Registry
  new_const reg value =
      let const_id = as_u32 (length reg.soa.const_pool) in
      let pooled = record reg.soa { const_pool = reg.soa.const_pool ++ value ∷ [] } in
      let (id, soa) = push_const float pooled const_id in
      (
        id,
        record reg { soa = soa; const_table = (float.to_bits value, const_id) ∷ reg.const_table },
      )

  unfoldable pub const_value : Registry → F64 → Step
  const_value reg value = elim (find_bits (float.to_bits value) reg.const_table) [
    | none ↦ some (new_const reg value)
    | some const_id ↦
        bind (find_const reg.soa const_id (len float reg.soa) 0)
          λ found. elim found [ some id ↦ some (id, reg) | none ↦ some (new_const reg value) ]
  ]

  -- The value of a node of the kind `k`, if it is constant.
  unfoldable pub const_of : Registry → NodeKind → Option F64
  const_of reg NodeKind.one = some float.one
  const_of reg NodeKind.zero = some float.zero
  const_of reg (NodeKind.const c) = get_elem? reg.soa.const_pool c
  const_of reg (NodeKind.var v) = none
  const_of reg NodeKind.bml_op = none

  unfoldable pub eval_const_node : Registry → NodeId → Option (Option F64)
  unfolding const_of
  eval_const_node reg id = bind (get float reg.soa id) λ node. some (const_of reg node.kind)

  -- The end of the method `bml`: no folding.
  unfoldable pub bml_plain : Registry → NodeId → NodeId → NodeId × Registry
  bml_plain reg left right = intern reg (bml_key left right) (push_bml float reg.soa left right)

  -- The method `bml` on the folded value of its operands, if they are constant.
  unfoldable pub bml_folded : Registry → NodeId → NodeId → Option F64 → Step
  bml_folded reg left right none = some (bml_plain reg left right)
  bml_folded reg left right (some result) =
      if float.is_finite result then const_value reg result else some (bml_plain reg left right)

  -- The method `bml`: folds constant operands to a finite constant.
  unfoldable pub bml_node : Registry → NodeId → NodeId → Step
  bml_node reg left right = bind (eval_const_node reg left) λ a.
      bind (eval_const_node reg right) λ b. bml_folded reg left right (both (bml_base_op float) a b)
