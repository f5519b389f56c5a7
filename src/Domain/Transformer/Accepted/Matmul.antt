-- ===== src/Domain/Transformer/Accepted/Matmul.antt =====
-- The product of matrices of crates/domain/src/transformer/operations.rs, on operands that they accept.
use bml.Prelude.{
  ℕ, zero, suc, ◌+◌, ◌*◌, ◌^◌, ◌≤◌, ◌<◌, ◌≡◌, refl, sym, ◌∙◌, Bool, true, some, List, [], map, ◌⊎◌,
  inl, inr, arith, ◌==◌, ==_iff, ==_refl, Bool-cases, length,
}
use bml.Float.{Float}
use bml.Domain.Ast.{NodeId}
use bml.Domain.Soa.{NodeSoa, len}
use bml.Domain.Transformer.{done}
use bml.Domain.Transformer.Ready.{Ready}
use bml.Domain.Transformer.Loops.{range, flatten}
use bml.Domain.Transformer.Operations.{
  invalid_node, checked_mul, reject, check_operands, matmul_check, matmul,
}
use bml.Domain.Transformer.Operations.Programs.{matmul_nodes}
use bml.Domain.Transformer.Values.{done-Makes}
use bml.Domain.Transformer.Values.Loops.{aligned_nil, Aligned-length}
use bml.Domain.Transformer.Values.Operations.{matmul_nodes-Makes}
use bml.Domain.Transformer.Costs.{Costs-eq, done-Costs}
use bml.Domain.Transformer.Costs.Tensor.{sum_cost, matmul_nodes-Costs}
use bml.Domain.Transformer.Formula.Operations as Formula
use bml.Domain.Transformer.Outcome.{
  HoldAll, HoldAll-Begins, check_nodes-HoldAll, Outcome, execute-Outcome,
}

checked_mul-some : (a b : ℕ) → a * b < 2 ^ 64 → checked_mul a b ≡ some (a * b)
unfolding checked_mul
checked_mul-some a b lt = ground arith

-- A product of no cells is empty, and takes no nodes.
no_cells : (rows columns : ℕ) → rows * columns ≡ 0 → (rows ≡ 0) ⊎ (columns ≡ 0)
no_cells zero columns e = inl refl
no_cells (suc rows) zero e = inr refl
no_cells (suc rows) (suc columns) e = absurd (omega (arith, e))

no_nodes : (rows columns n : ℕ) → rows * columns ≡ 0 → rows * (columns * n) ≡ 0
no_nodes rows columns n e = elim (no_cells rows columns e) [
  | inl z ↦ rw z (omega arith)
  | inr z ↦ rw z (omega arith)
]

flatten-empty :
    {A : Type 0} (empty : List A)
    → empty ≡ []
    → (start count : ℕ) → flatten (map (λ row. empty) (range start count)) ≡ []
unfolding flatten range
flatten-empty empty e start zero = refl
flatten-empty empty e start (suc count) = rw e (flatten-empty empty e (suc start) count)

module _ (float : Float) where
  open float use {F64}

  matmul-empty :
      (xs ys : List F64) (rows inner columns : ℕ)
      → rows * columns ≡ 0
      → Formula.matmul float xs ys rows inner columns ≡ []
  unfolding Formula.matmul flatten range
  matmul-empty xs ys rows inner columns e = elim (no_cells rows columns e) [
    | inl z ↦ rw z refl
    | inr z ↦ rw z (flatten-empty [] refl 0 rows)
  ]

  module _ (inputs : List F64) (soa : NodeSoa float) (r : Ready float soa) where
    -- The product of matrices accepts operands of its dimensions, when the dimensions are in `usize`, the
    -- allocator answers and the columns have room, and its outputs hold the sums of the signed products of the
    -- rows and the columns.
    pub matmul-Outcome :
        (reserve : ℕ → Bool) (rows inner columns : ℕ) {left right : List NodeId} {xs ys : List F64}
        → rows * inner < 2 ^ 64
        → inner * columns < 2 ^ 64
        → rows * columns < 2 ^ 64
        → length xs ≡ rows * inner
        → length ys ≡ inner * columns
        → reserve (rows * columns) ≡ true
        → len float soa + rows * (columns * (inner * 197 + sum_cost inner)) ≤ 2 ^ 32
        → HoldAll float inputs soa left xs
        → HoldAll float inputs soa right ys
        → Outcome float soa
            (matmul float reserve soa left right rows inner columns)
            (rows * (columns * (inner * 197 + sum_cost inner)))
            (λ end ids.
              HoldAll float inputs end ids (Formula.matmul float xs ys rows inner columns))
    unfolding matmul matmul_check reject check_operands
    matmul-Outcome reserve rows inner columns {left} {right} {xs} {ys} la lb lc ex ey free space hx
          hy =
        let el = Aligned-length hx ∙ ex in
        let er = Aligned-length hy ∙ ey in
        elim (Bool-cases (rows * columns == 0)) [
          | inl c ↦
              let e = (==_iff (rows * columns) 0).0 c in
              execute-Outcome float inputs soa _ {m = done []} {p = 0} _
                (rw
                  (
                    checked_mul-some rows inner la,
                    checked_mul-some inner columns lb,
                    checked_mul-some rows columns lc,
                  )
                  (rw
                    (
                      el,
                      er,
                      ==_refl (rows * inner),
                      ==_refl (inner * columns),
                      check_nodes-HoldAll float invalid_node inputs soa hx,
                      check_nodes-HoldAll float invalid_node inputs soa hy,
                      c,
                    )
                    refl))
                r
                (Costs-eq (sym (no_nodes rows columns (inner * 197 + sum_cost inner) e)) refl
                  (done-Costs []))
                space
                λ end small pool b.
                  done-Makes float inputs end
                    (rw (matmul-empty xs ys rows inner columns e) aligned_nil)
          | inr c ↦
              execute-Outcome float inputs soa _ {m = matmul_nodes left right rows inner columns} _
                (rw
                  (
                    checked_mul-some rows inner la,
                    checked_mul-some inner columns lb,
                    checked_mul-some rows columns lc,
                  )
                  (rw
                    (
                      el,
                      er,
                      ==_refl (rows * inner),
                      ==_refl (inner * columns),
                      check_nodes-HoldAll float invalid_node inputs soa hx,
                      check_nodes-HoldAll float invalid_node inputs soa hy,
                      c,
                      free,
                    )
                    refl))
                r (matmul_nodes-Costs left right rows inner columns) space
                λ end small pool b.
                  matmul_nodes-Makes float inputs end small pool rows inner columns
                    (HoldAll-Begins float inputs r b hx) (HoldAll-Begins float inputs r b hy) el er
        ]
