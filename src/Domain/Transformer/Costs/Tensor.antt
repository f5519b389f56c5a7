-- ===== src/Domain/Transformer/Costs/Tensor.antt =====
-- The nodes that the operations on tensors of crates/domain/src/transformer/operations.rs append.
use bml.Prelude.{ℕ, zero, suc, ◌+◌, ◌*◌, ◌≡◌, refl, ap, ◌∙◌, List, [], ◌∷◌, arith, length}
use bml.Float.{Float}
use bml.Domain.Ast.{NodeId}
use bml.Domain.Transformer.{Build, ◌>>=◌}
use bml.Domain.Transformer.Loops.{range, for_each}
use bml.Domain.Transformer.Costs.{
  Costs, done-Costs, bind-Costs, bind-Costs-when, Costs-eq, one-Costs, constant-Costs,
  for_each-Costs, fold_nodes-Costs, for_zip-Costs, length-for_each,
}
use bml.Domain.Transformer.Costs.Arithmetic.{
  exp2-Costs, log2-Costs, neg_real-Costs, add-Costs, mul-Costs, scale_signed-Costs,
  mul_signed-Costs,
}
use bml.Domain.Transformer.Operations.Programs as Programs

-- The sum of no nodes is a constant; each further node is an addition.
unfoldable pub sum_cost : ℕ → ℕ
sum_cost zero = 1
sum_cost (suc n) = n * 21

unfoldable pub sum_pool : ℕ → ℕ
sum_pool zero = 1
sum_pool (suc n) = 0

length-range : (start count : ℕ) → length (range start count) ≡ count
unfolding range
length-range start zero = refl
length-range start (suc count) = ap suc (length-range (suc start) count)

module _ {float : Float} where
  open float use {F64}

  sum_nodes-Costs :
      (ids : List NodeId)
      → Costs {float = float}
          (Programs.sum_nodes ids)
          (sum_cost (length ids))
          (sum_pool (length ids))
  unfolding Programs.sum_nodes sum_cost sum_pool
  sum_nodes-Costs [] = constant-Costs float.zero
  sum_nodes-Costs (first ∷ rest) =
      Costs-eq refl (omega arith)
        (fold_nodes-Costs _ 21 0 (λ sum value. add-Costs sum value) first rest)

  reciprocal_real-Costs : (x : NodeId) → Costs {float = float} (Programs.reciprocal_real x) 20 0
  unfolding Programs.reciprocal_real
  reciprocal_real-Costs x =
      bind-Costs 6 14 0 0 (log2-Costs x)
        λ log. bind-Costs 12 2 0 0 (neg_real-Costs log) λ negative. exp2-Costs negative

  natural_exp-Costs : (x base : NodeId) → Costs {float = float} (Programs.natural_exp x base) 84 0
  unfolding Programs.natural_exp
  natural_exp-Costs x base =
      bind-Costs 82 2 0 0 (scale_signed-Costs x base) λ exponent. exp2-Costs exponent

  -- A loop whose list has a known length, and then what follows on results of that length.
  loop-Costs :
      {A B C : Type 0} (f : A → Build float B) (xs : List A) (k : List B → Build float C)
      (count n nodes p : ℕ)
      → length xs ≡ count
      → ((x : A) → Costs (f x) n 0)
      → ((ys : List B) → length ys ≡ count → Costs (k ys) nodes p)
      → Costs (for_each f xs >>= k) (count * n + nodes) p
  loop-Costs f xs k count n nodes p e each next = Costs-eq refl (omega arith) (
      bind-Costs-when (λ ys. length ys ≡ count) (count * n) nodes 0 p
        (λ soa. length-for_each f xs soa ∙ e)
        (Costs-eq (ap (λ k. k * n) e) (omega arith) (for_each-Costs f n 0 each xs)) next)

  pub matmul_entry-Costs :
      (left right : List NodeId) (inner columns row column : ℕ)
      → Costs {float = float}
          (Programs.matmul_entry left right inner columns row column)
          (inner * 197 + sum_cost inner)
          (sum_pool inner)
  unfolding Programs.matmul_entry
  matmul_entry-Costs left right inner columns row column =
      loop-Costs _ (range 0 inner) _ inner 197 (sum_cost inner) (sum_pool inner)
        (length-range 0 inner) (λ k. mul_signed-Costs _ _)
        λ ys e. Costs-eq (ap sum_cost e) (ap sum_pool e) (sum_nodes-Costs ys)

  pub matmul_nodes-Costs :
      (left right : List NodeId) (rows inner columns : ℕ)
      → Costs {float = float}
          (Programs.matmul_nodes left right rows inner columns)
          (rows * (columns * (inner * 197 + sum_cost inner)))
          (rows * (columns * sum_pool inner))
  unfolding Programs.matmul_nodes
  matmul_nodes-Costs left right rows inner columns =
      let n = inner * 197 + sum_cost inner in
      let p = sum_pool inner in
      let cells = λ (row : ℕ).
        Costs-eq (ap (λ k. k * n) (length-range 0 columns))
          (ap (λ k. k * p) (length-range 0 columns))
          (for_each-Costs
            (λ column. Programs.matmul_entry {float = float} left right inner columns row column) n
            p (λ column. matmul_entry-Costs left right inner columns row column)
            (range 0 columns)) in
      Costs-eq (omega arith) (omega arith) (
        bind-Costs (rows * (columns * n)) 0 (rows * (columns * p)) 0
          (Costs-eq (ap (λ k. k * (columns * n)) (length-range 0 rows))
            (ap (λ k. k * (columns * p)) (length-range 0 rows))
            (for_each-Costs _ (columns * n) (columns * p) cells (range 0 rows)))
          λ output. done-Costs _)

  pub softmax_nodes-Costs :
      (input : List NodeId)
      → Costs {float = float}
          (Programs.softmax_nodes input)
          (21 + length input * 119 + sum_cost (length input))
          (1 + sum_pool (length input))
  unfolding Programs.softmax_nodes
  softmax_nodes-Costs input =
      let n = length input in
      Costs-eq (omega arith) refl (
        bind-Costs 1 (n * 84 + (sum_cost n + (20 + n * 35))) 1 (sum_pool n)
          (constant-Costs float.log2_e)
          λ base.
            loop-Costs _ input _ n 84 (sum_cost n + (20 + n * 35)) (sum_pool n) refl
              (λ x. natural_exp-Costs x base)
              λ exps e. Costs-eq refl (omega arith) (
                bind-Costs (sum_cost n) (20 + n * 35) (sum_pool n) 0
                  (Costs-eq (ap sum_cost e) (ap sum_pool e) (sum_nodes-Costs exps))
                  λ sum. bind-Costs 20 (n * 35) 0 0 (reciprocal_real-Costs sum) λ inverse.
                    Costs-eq (ap (λ k. k * 35) e) (omega arith)
                      (for_each-Costs _ 35 0 (λ x. mul-Costs x inverse) exps)))

  pub swiglu_nodes-Costs :
      (gate up : List NodeId)
      → length gate ≡ length up
      → Costs {float = float} (Programs.swiglu_nodes gate up) (2 + length up * 416) 1
  unfolding Programs.swiglu_nodes
  swiglu_nodes-Costs gate up e = Costs-eq (omega arith) refl (
      bind-Costs 1 (1 + length up * 416) 1 0 (constant-Costs float.log2_e) λ base.
        bind-Costs 1 (length up * 416) 0 0 one-Costs λ unit. Costs-eq refl (omega arith) (
          for_zip-Costs _ 416 0
            (λ g u. bind-Costs 12 404 0 0 (neg_real-Costs g) λ negative.
              bind-Costs 84 320 0 0 (natural_exp-Costs negative base) λ exp.
                bind-Costs 21 299 0 0 (add-Costs unit exp) λ denominator.
                  bind-Costs 20 279 0 0 (reciprocal_real-Costs denominator) λ sigmoid.
                    bind-Costs 82 197 0 0 (scale_signed-Costs g sigmoid)
                      λ silu. mul_signed-Costs silu u)
            gate up e))

  pub rms_norm_nodes-Costs :
      (input weights : List NodeId) (epsilon : F64)
      → length input ≡ length weights
      → Costs {float = float}
          (Programs.rms_norm_nodes input weights epsilon)
          (216 + length weights * 476 + sum_cost (length weights))
          (3 + sum_pool (length weights))
  unfolding Programs.rms_norm_nodes
  rms_norm_nodes-Costs input weights epsilon e =
      let n = length weights in
      let t = n * 279 in
      Costs-eq (omega arith) (omega arith) (
        loop-Costs _ input _ n 197 (sum_cost n + (216 + t)) (sum_pool n + 3) e
          (λ x. mul_signed-Costs x x)
          λ squares es.
            bind-Costs (sum_cost n) (216 + t) (sum_pool n) 3
              (Costs-eq (ap sum_cost es) (ap sum_pool es) (sum_nodes-Costs squares))
              λ sum. Costs-eq (omega arith) refl (
                bind-Costs 1 (215 + t) 1 2 (constant-Costs _) λ width. Costs-eq (omega arith) refl (
                  bind-Costs 82 (133 + t) 0 2 (scale_signed-Costs sum width) λ mean.
                    Costs-eq (omega arith) refl (
                      bind-Costs 1 (132 + t) 1 1 (constant-Costs epsilon) λ eps.
                        Costs-eq (omega arith) refl (
                          bind-Costs 21 (111 + t) 0 1 (add-Costs mean eps) λ variance.
                            Costs-eq (omega arith) refl (
                              bind-Costs 6 (105 + t) 0 1 (log2-Costs variance) λ log.
                                Costs-eq (omega arith) refl (
                                  bind-Costs 1 (104 + t) 1 0 (constant-Costs float.half) λ half.
                                    Costs-eq (omega arith) refl (
                                      bind-Costs 82 (22 + t) 0 0 (scale_signed-Costs log half)
                                        λ half_log. Costs-eq (omega arith) refl (
                                          bind-Costs 2 (20 + t) 0 0 (exp2-Costs half_log) λ root.
                                            bind-Costs 20 t 0 0 (reciprocal_real-Costs root)
                                              λ inverse. Costs-eq refl (omega arith) (
                                                for_zip-Costs _ 279 0
                                                  (λ x weight.
                                                    bind-Costs 82 197 0 0
                                                      (scale_signed-Costs x inverse)
                                                      λ normalized.
                                                        mul_signed-Costs normalized weight)
                                                  input weights e))))))))))

  rope_pair-Costs :
      (x y cos sin : NodeId) → Costs {float = float} (Programs.rope_pair x y cos sin) 842 0
  unfolding Programs.rope_pair
  rope_pair-Costs x y cos sin = bind-Costs 197 645 0 0 (mul_signed-Costs x cos) λ x_cos.
      bind-Costs 197 448 0 0 (mul_signed-Costs y sin) λ y_sin.
        bind-Costs 12 436 0 0 (neg_real-Costs y_sin) λ minus.
          bind-Costs 21 415 0 0 (add-Costs x_cos minus) λ first.
            bind-Costs 197 218 0 0 (mul_signed-Costs x sin) λ x_sin.
              bind-Costs 197 21 0 0 (mul_signed-Costs y cos) λ y_cos.
                bind-Costs 21 0 0 0 (add-Costs x_sin y_cos) λ second. done-Costs (first, second)

  pub rope_nodes-Costs :
      (input cosines sines : List NodeId)
      → length input ≡ length sines * 2
      → length cosines ≡ length sines
      → Costs {float = float} (Programs.rope_nodes input cosines sines) (length sines * 842) 0
  unfolding Programs.rope_nodes
  rope_nodes-Costs [] cosines [] e f = done-Costs []
  rope_nodes-Costs (x ∷ []) cosines [] e f = absurd (omega (arith, e))
  rope_nodes-Costs (x ∷ y ∷ rest) cosines [] e f = absurd (omega (arith, e))
  rope_nodes-Costs [] cosines (sin ∷ sines) e f = absurd (omega (arith, e))
  rope_nodes-Costs (x ∷ []) cosines (sin ∷ sines) e f = absurd (omega (arith, e))
  rope_nodes-Costs (x ∷ y ∷ rest) [] (sin ∷ sines) e f = absurd (omega (arith, f))
  rope_nodes-Costs (x ∷ y ∷ rest) (cos ∷ cosines) (sin ∷ sines) e f = Costs-eq (omega arith) refl (
      bind-Costs 842 (length sines * 842 + 0) 0 0 (rope_pair-Costs x y cos sin) λ pair.
        bind-Costs (length sines * 842) 0 0 0
          (rope_nodes-Costs rest cosines sines (omega (arith, e)) (omega (arith, f)))
          λ others. done-Costs _)
