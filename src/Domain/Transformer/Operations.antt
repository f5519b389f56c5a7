-- ===== src/Domain/Transformer/Operations.antt =====
-- crates/domain/src/transformer/operations.rs: what the operations on tensors accept, and what they
-- leave. The nodes are those of the programs; the allocator's answer is a parameter.
pub mod Programs
use bml.Prelude.{
  ℕ, zero, suc, ◌+◌, ◌-◌, ◌*◌, ◌/◌, ◌%◌, ◌^◌, ◌≤◌, ◌<◌, min, max, ◌≡◌, ◌≢◌, refl, sym, ap, ap₂, ◌∙◌,
  subst, Bool, true, false, not, ◌&&◌, ◌||◌, cond, Option, none, some, List, [], ◌∷◌, ◌++◌, map,
  append_assoc, append-nil, ◌⊎◌, inl, inr, ◌↔◌, arith, tests, ltb, leb, ltb→lt, lt→ltb, ltb→le,
  ltb-eq-false, leb→le, ◌==◌, ==_iff, ==_refl, if◌then◌else◌, Bool-cases, Option-cases, length,
  get_elem?, get_or, set, take, drop, replicate, length-append, length-set, length-replicate,
  get_or-set_self, get_or-set_ne, get_or-replicate, get_or_of_ge, length-drop, drop-length_append,
  take-length_append, get_elem?-append_left, get_elem?-append_end, length-map, Result, ok, err,
  ok_or, map_err, ◌>>=◌, ◌>>◌, Result-cases, >>-eq-ok,
}
use bml.Float.{Float}
use bml.Domain.Ast.{NodeId}
use bml.Domain.Soa.{NodeSoa, len}
use bml.Domain.Transformer.{Build, run}
use bml.Domain.Transformer.Operations.Programs.{
  matmul_nodes, rms_norm_nodes, rope_nodes, softmax_nodes, swiglu_nodes,
}

pub data OperationBuildError : Type 0 where
  shape : OperationBuildError
  size_overflow : OperationBuildError
  allocation : OperationBuildError
  invalid_node : NodeId → OperationBuildError
  invalid_epsilon : OperationBuildError

-- `usize::checked_mul` and `usize::checked_add`
unfoldable pub checked_mul : ℕ → ℕ → Option ℕ
checked_mul a b = if ltb (a * b) (2 ^ 64) then some (a * b) else none

unfoldable pub checked_add : ℕ → ℕ → Option ℕ
checked_add a b = if ltb (a + b) (2 ^ 64) then some (a + b) else none

-- An early return of the error when the condition holds.
unfoldable pub reject : {E : Type 0} → Bool → E → Result E (Unit {0})
reject bad e = if bad then err e else ok tt

-- The first operand that is not a node of the columns, as an error.
unfoldable pub check_nodes : {E : Type 0} → (NodeId → E) → ℕ → List NodeId → Result E (Unit {0})
check_nodes invalid nodes [] = ok tt
check_nodes invalid nodes (id ∷ operands) =
    if leb nodes id then err (invalid id) else check_nodes invalid nodes operands

module _ (float : Float) where
  open float use {F64}

  -- The result of a method, and the columns that it leaves: the program runs on acceptance only.
  unfoldable pub execute :
      {E A : Type 0} → Result E (Build float A) → NodeSoa float → Result E A × NodeSoa float
  execute (err e) soa = (err e, soa)
  execute (ok program) soa = let (a, soa') = run float program soa in (ok a, soa')

  unfoldable pub check_operands :
      NodeSoa float → List NodeId → Result OperationBuildError (Unit {0})
  check_operands soa operands = check_nodes invalid_node (len float soa) operands

  unfoldable pub matmul_check :
      (ℕ → Bool)
      → NodeSoa float
      → List NodeId
      → List NodeId
      → ℕ
      → ℕ
      → ℕ
      → Result OperationBuildError (Build float (List NodeId))
  matmul_check reserve soa left right rows inner columns = do
    left_len ← ok_or (checked_mul rows inner) size_overflow
    right_len ← ok_or (checked_mul inner columns) size_overflow
    output_len ← ok_or (checked_mul rows columns) size_overflow
    reject (not (length left == left_len) || not (length right == right_len)) shape
    check_operands soa left
    check_operands soa right
    if output_len == 0 then ok (Build.done []) else do
      reject (not (reserve output_len)) allocation
      ok (matmul_nodes left right rows inner columns)

  unfoldable pub matmul :
      (ℕ → Bool)
      → NodeSoa float
      → List NodeId
      → List NodeId
      → ℕ
      → ℕ
      → ℕ
      → Result OperationBuildError (List NodeId) × NodeSoa float
  matmul reserve soa left right rows inner columns =
      execute (matmul_check reserve soa left right rows inner columns) soa

  unfoldable pub rms_norm :
      NodeSoa float
      → List NodeId
      → List NodeId
      → F64
      → Result OperationBuildError (List NodeId) × NodeSoa float
  rms_norm soa input weights epsilon = execute checked soa
    where
      checked : Result OperationBuildError (Build float (List NodeId))
      checked = do
        reject (length input == 0 || not (length input == length weights)) shape
        reject (not (float.is_finite epsilon) || float.le epsilon float.zero) invalid_epsilon
        check_operands soa input
        check_operands soa weights
        ok (rms_norm_nodes input weights epsilon)

  unfoldable pub rope :
      NodeSoa float
      → List NodeId
      → List NodeId
      → List NodeId
      → Result OperationBuildError (List NodeId) × NodeSoa float
  rope soa input cosines sines = execute checked soa
    where
      checked : Result OperationBuildError (Build float (List NodeId))
      checked = do
        reject
            (not (length input % 2 == 0)
              || not (length cosines == length input / 2)
              || not (length sines == length cosines))
            shape
        check_operands soa input
        check_operands soa cosines
        check_operands soa sines
        ok (rope_nodes input cosines sines)

  unfoldable pub softmax :
      NodeSoa float → List NodeId → Result OperationBuildError (List NodeId) × NodeSoa float
  softmax soa input = execute checked soa
    where
      checked : Result OperationBuildError (Build float (List NodeId))
      checked = do
        reject (length input == 0) shape
        check_operands soa input
        ok (softmax_nodes input)

  unfoldable pub swiglu :
      NodeSoa float
      → List NodeId
      → List NodeId
      → Result OperationBuildError (List NodeId) × NodeSoa float
  swiglu soa gate up = execute checked soa
    where
      checked : Result OperationBuildError (Build float (List NodeId))
      checked = do
        reject (not (length gate == length up)) shape
        check_operands soa gate
        check_operands soa up
        ok (swiglu_nodes gate up)
