-- ===== src/Domain/Transformer.antt =====
-- crates/domain/src/transformer.rs: operations translated to nodes. A method of `BMLTransformer` is a
-- program of the calls that it makes on its columns, which `run` performs.
pub mod Kept
pub mod Ready
pub mod Costs
pub mod Arithmetic
pub mod Formula
pub mod Loops
pub mod Bounded
pub mod Operations
pub mod Values
pub mod Outcome
pub mod Accepted
use bml.Prelude.{
  ℕ, zero, suc, ◌+◌, ◌-◌, ◌*◌, ◌/◌, ◌%◌, ◌^◌, ◌≤◌, ◌<◌, min, max, ◌≡◌, ◌≢◌, refl, sym, ap, ap₂, ◌∙◌,
  subst, Bool, true, false, not, ◌&&◌, ◌||◌, cond, Option, none, some, List, [], ◌∷◌, ◌++◌, map,
  append_assoc, append-nil, ◌⊎◌, inl, inr, ◌↔◌, arith, tests, ltb, leb, ltb→lt, lt→ltb, ltb→le,
  ltb-eq-false, leb→le, ◌==◌, ==_iff, ==_refl, if◌then◌else◌, Bool-cases, Option-cases, length,
  get_elem?, get_or, set, take, drop, replicate, length-append, length-set, length-replicate,
  get_or-set_self, get_or-set_ne, get_or-replicate, get_or_of_ge, length-drop, drop-length_append,
  take-length_append, get_elem?-append_left, get_elem?-append_end, length-map, Result, ok, err,
  ok_or, map_err, Result-cases, >>-eq-ok,
}
use bml.Float.{Float}
use bml.Domain.Ast.{NodeId}
use bml.Domain.Soa.{NodeSoa, as_u32, push_one, push_var, push_const, push_bml}

-- The calls of the columns that add a node.
pub data Call : Type 0 where
  call_one : Call
  call_var : ℕ → Call
  call_const : ℕ → Call
  call_bml : NodeId → NodeId → Call

module _ (float : Float) where
  open float use {F64}

  unfoldable pub perform : Call → NodeSoa float → NodeId × NodeSoa float
  perform call_one soa = push_one float soa
  perform (call_var id) soa = push_var float soa id
  perform (call_const id) soa = push_const float soa id
  perform (call_bml left right) soa = push_bml float soa left right

  -- A value appended to the pool.
  unfoldable pub append_constant : F64 → NodeSoa float → NodeSoa float
  append_constant value soa = record soa { const_pool = soa.const_pool ++ value ∷ [] }

  pub data Build (A : Type 0) : Type 0 where
    done : A → Build A
    call : Call → (NodeId → Build A) → Build A
    -- `const_pool.len() as ConstId` and `const_pool.push`
    pool : F64 → (ℕ → Build A) → Build A

  unfoldable pub run : {A : Type 0} → Build A → NodeSoa float → A × NodeSoa float
  unfolding perform append_constant
  run (done a) soa = (a, soa)
  run (call c next) soa = let (id, soa') = perform c soa in run (next id) soa'
  run (pool value next) soa =
      run (next (as_u32 (length soa.const_pool))) (append_constant value soa)

infixl 5 ◌>>=◌
unfoldable pub ◌>>=◌ :
    {float : Float} {A B : Type 0} → Build float A → (A → Build float B) → Build float B
done a >>= k = k a
call c next >>= k = call c λ id. next id >>= k
pool value next >>= k = pool value λ id. next id >>= k
