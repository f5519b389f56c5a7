-- ===== src/Domain/Transformer/Values/Operations.antt =====
-- The operations on tensors of crates/domain/src/transformer/operations.rs make nodes of the values of
-- their formulas.
use bml.Prelude.{ℕ, ◌+◌, ◌*◌, ◌^◌, ◌≤◌, ◌<◌, ◌≡◌, sym, List, arith, length}
use bml.Float.{Float}
use bml.Domain.Ast.{NodeId}
use bml.Domain.Soa.{NodeSoa, len}
use bml.Domain.Transformer.Values.Primitives.{one-Makes, constant-Makes}
use bml.Domain.Transformer.Values.Arithmetic.{
  exp2-Makes, log2-Makes, neg_real-Makes, add-Makes, mul-Makes, scale_signed-Makes,
  mul_signed-Makes,
}
use bml.Domain.Transformer.Values.Loops.{
  Aligned, aligned_nil, aligned_cons, Aligned-length, Aligned-get, Aligned-range, Aligned-flatten,
  cell_lt, for_each-Makes, for_zip-Makes, fold_nodes-Makes,
}
use bml.Domain.Transformer.Values.{Holds, Makes, done-Makes, bind-Makes}
use bml.Domain.Transformer.Operations.Programs as Programs
use bml.Domain.Transformer.Formula as Formula
use bml.Domain.Transformer.Formula.Operations as Tensor

module _ (float : Float) (inputs : List (float.F64)) (end : NodeSoa float)
    (small : len float end ≤ 2 ^ 32) (small_pool : length end.const_pool ≤ 2 ^ 32) where
  open float use {F64}

  abbrev pub HoldAll : List NodeId → List F64 → Type 0
  HoldAll ids values = Aligned (Holds float inputs end) ids values

  pub sum_nodes-Makes :
      {ids : List NodeId} {values : List F64}
      → HoldAll ids values
      → Makes float inputs end
          (Programs.sum_nodes ids)
          (λ id. Holds float inputs end id (Tensor.sum float values))
  unfolding Programs.sum_nodes Tensor.sum
  sum_nodes-Makes aligned_nil = constant-Makes float inputs end small float.zero small_pool
  sum_nodes-Makes (aligned_cons {x} {v} h rest) =
      fold_nodes-Makes float inputs end {S = Holds float inputs end} _ (Formula.add float) x v h
        rest λ b w x v hb hx. add-Makes float inputs end small hb hx

  pub reciprocal_real-Makes :
      {x : NodeId} {v : F64}
      → Holds float inputs end x v
      → Makes float inputs end
          (Programs.reciprocal_real x)
          (λ id. Holds float inputs end id (Formula.reciprocal_real float v))
  unfolding Programs.reciprocal_real Formula.reciprocal_real
  reciprocal_real-Makes h = bind-Makes float inputs end (log2-Makes float inputs end small h) λ _ e.
      bind-Makes float inputs end (neg_real-Makes float inputs end small e)
        λ _ f. exp2-Makes float inputs end small f

  pub natural_exp-Makes :
      {x base : NodeId} {v b : F64}
      → Holds float inputs end x v
      → Holds float inputs end base b
      → Makes float inputs end
          (Programs.natural_exp x base)
          (λ id. Holds float inputs end id (Formula.natural_exp float v b))
  unfolding Programs.natural_exp Formula.natural_exp
  natural_exp-Makes h k =
      bind-Makes float inputs end (scale_signed-Makes float inputs end small h k)
        λ _ e. exp2-Makes float inputs end small e

  matmul_entry-Makes :
      {left right : List NodeId} {xs ys : List F64} (rows inner columns row column : ℕ)
      → HoldAll left xs
      → HoldAll right ys
      → length left ≡ rows * inner
      → length right ≡ inner * columns
      → row < rows
      → column < columns
      → Makes float inputs end (Programs.matmul_entry left right inner columns row column) (λ id.
        Holds float inputs end id (Tensor.matmul_entry float xs ys inner columns row column))
  unfolding Programs.matmul_entry Tensor.matmul_entry
  matmul_entry-Makes rows inner columns row column hl hr el er lr lc =
      bind-Makes float inputs end
        (for_each-Makes float inputs end {S = Holds float inputs end} _ _
          (Aligned-range 0 inner inner (omega arith))
          λ k k' r. rw (sym r.0) (
            mul_signed-Makes float inputs end small
              (Aligned-get (row * inner + k) 0 float.zero hl
                (rw el (cell_lt row rows k inner lr r.1)))
              (Aligned-get (k * columns + column) 0 float.zero hr
                (rw er (cell_lt k inner column columns r.1 lc)))))
        λ _ es. sum_nodes-Makes es

  pub matmul_nodes-Makes :
      {left right : List NodeId} {xs ys : List F64} (rows inner columns : ℕ)
      → HoldAll left xs
      → HoldAll right ys
      → length left ≡ rows * inner
      → length right ≡ inner * columns
      → Makes float inputs end
          (Programs.matmul_nodes left right rows inner columns)
          (λ ids. HoldAll ids (Tensor.matmul float xs ys rows inner columns))
  unfolding Programs.matmul_nodes Tensor.matmul
  matmul_nodes-Makes rows inner columns hl hr el er =
      bind-Makes float inputs end
        (for_each-Makes float inputs end {S = HoldAll} _ _ (Aligned-range 0 rows rows (omega arith))
          λ row row' r.
            for_each-Makes float inputs end {S = Holds float inputs end} _ _
              (Aligned-range 0 columns columns (omega arith))
              λ column column' c.
                rw (sym r.0, sym c.0)
                  (matmul_entry-Makes rows inner columns row column hl hr el er r.1 c.1))
        λ _ es. done-Makes float inputs end (Aligned-flatten es)

  pub rms_norm_nodes-Makes :
      {input weights : List NodeId} {xs ws : List F64} (epsilon : F64)
      → HoldAll input xs
      → HoldAll weights ws
      → Makes float inputs end
          (Programs.rms_norm_nodes input weights epsilon)
          (λ ids. HoldAll ids (Tensor.rms_norm float xs ws epsilon))
  unfolding Programs.rms_norm_nodes Tensor.rms_norm Tensor.inverse_rms
  rms_norm_nodes-Makes epsilon hx hw = rw (sym (Aligned-length hx)) (
      bind-Makes float inputs end
        (for_each-Makes float inputs end {S = Holds float inputs end} _ _ hx
          λ x v h. mul_signed-Makes float inputs end small h h)
        λ _ squares. bind-Makes float inputs end (sum_nodes-Makes squares) λ _ sum.
          bind-Makes float inputs end (constant-Makes float inputs end small _ small_pool)
            λ _ width.
              bind-Makes float inputs end (scale_signed-Makes float inputs end small sum width)
                λ _ mean.
                  bind-Makes float inputs end
                    (constant-Makes float inputs end small epsilon small_pool)
                    λ _ eps.
                      bind-Makes float inputs end (add-Makes float inputs end small mean eps)
                        λ _ variance.
                          bind-Makes float inputs end (log2-Makes float inputs end small variance)
                            λ _ log.
                              bind-Makes float inputs end
                                (constant-Makes float inputs end small float.half small_pool)
                                λ _ half.
                                  bind-Makes float inputs end
                                    (scale_signed-Makes float inputs end small log half)
                                    λ _ half_log.
                                      bind-Makes float inputs end
                                        (exp2-Makes float inputs end small half_log)
                                        λ _ root.
                                          bind-Makes float inputs end (reciprocal_real-Makes root)
                                            λ _ inverse.
                                              for_zip-Makes float inputs end
                                                {T = Holds float inputs end} _ _ hx hw
                                                λ x x' w w' h k.
                                                  bind-Makes float inputs end
                                                    (scale_signed-Makes float inputs end small h
                                                      inverse)
                                                    λ _ normalized.
                                                      mul_signed-Makes float inputs end small
                                                        normalized k)

  rope_pair-Makes :
      {x y cos sin : NodeId} {x' y' cos' sin' : F64}
      → Holds float inputs end x x'
      → Holds float inputs end y y'
      → Holds float inputs end cos cos'
      → Holds float inputs end sin sin'
      → Makes float inputs end (Programs.rope_pair x y cos sin) (λ pair.
        Holds float inputs end pair.0 (
          Formula.add float
            (Formula.mul_signed float x' cos')
            (Formula.neg_real float (Formula.mul_signed float y' sin')))
        × Holds float inputs end pair.1 (
            Formula.add float
              (Formula.mul_signed float x' sin')
              (Formula.mul_signed float y' cos')))
  unfolding Programs.rope_pair
  rope_pair-Makes hx hy hc hs =
      bind-Makes float inputs end (mul_signed-Makes float inputs end small hx hc) λ _ xc.
        bind-Makes float inputs end (mul_signed-Makes float inputs end small hy hs) λ _ ys.
          bind-Makes float inputs end (neg_real-Makes float inputs end small ys) λ _ minus.
            bind-Makes float inputs end (add-Makes float inputs end small xc minus) λ _ first.
              bind-Makes float inputs end (mul_signed-Makes float inputs end small hx hs) λ _ xs.
                bind-Makes float inputs end (mul_signed-Makes float inputs end small hy hc) λ _ yc.
                  bind-Makes float inputs end (add-Makes float inputs end small xs yc)
                    λ _ second. done-Makes float inputs end (first, second)

  pub rope_nodes-Makes :
      {input cosines sines : List NodeId} {xs cs ss : List F64}
      → HoldAll input xs
      → HoldAll cosines cs
      → HoldAll sines ss
      → Makes float inputs end
          (Programs.rope_nodes input cosines sines)
          (λ ids. HoldAll ids (Tensor.rope float xs cs ss))
  unfolding Programs.rope_nodes Tensor.rope
  rope_nodes-Makes (aligned_cons x (aligned_cons y rest)) (aligned_cons c cs) (aligned_cons s ss) =
      bind-Makes float inputs end (rope_pair-Makes x y c s) λ _ pair.
        bind-Makes float inputs end (rope_nodes-Makes rest cs ss)
          λ _ others. done-Makes float inputs end (aligned_cons pair.0 (aligned_cons pair.1 others))
  rope_nodes-Makes aligned_nil hc hs = done-Makes float inputs end aligned_nil
  rope_nodes-Makes (aligned_cons x aligned_nil) hc hs = done-Makes float inputs end aligned_nil
  rope_nodes-Makes (aligned_cons x (aligned_cons y rest)) aligned_nil hs =
      done-Makes float inputs end aligned_nil
  rope_nodes-Makes (aligned_cons x (aligned_cons y rest)) (aligned_cons c cs) aligned_nil =
      done-Makes float inputs end aligned_nil

  pub softmax_nodes-Makes :
      {input : List NodeId} {xs : List F64}
      → HoldAll input xs
      → Makes float inputs end
          (Programs.softmax_nodes input)
          (λ ids. HoldAll ids (Tensor.softmax float xs))
  unfolding Programs.softmax_nodes Tensor.softmax
  softmax_nodes-Makes hx =
      bind-Makes float inputs end (constant-Makes float inputs end small float.log2_e small_pool)
        λ _ base.
          bind-Makes float inputs end
            (for_each-Makes float inputs end {S = Holds float inputs end} _ _ hx
              λ x v h. natural_exp-Makes h base)
            λ _ exps. bind-Makes float inputs end (sum_nodes-Makes exps) λ _ sum.
              bind-Makes float inputs end (reciprocal_real-Makes sum) λ _ inverse.
                for_each-Makes float inputs end {S = Holds float inputs end} _ _ exps
                  λ x v h. mul-Makes float inputs end small h inverse

  pub swiglu_nodes-Makes :
      {gate up : List NodeId} {gs us : List F64}
      → HoldAll gate gs
      → HoldAll up us
      → Makes float inputs end
          (Programs.swiglu_nodes gate up)
          (λ ids. HoldAll ids (Tensor.swiglu float gs us))
  unfolding Programs.swiglu_nodes Tensor.swiglu
  swiglu_nodes-Makes hg hu =
      bind-Makes float inputs end (constant-Makes float inputs end small float.log2_e small_pool)
        λ _ base. bind-Makes float inputs end (one-Makes float inputs end small) λ _ unit.
          for_zip-Makes float inputs end {T = Holds float inputs end} _ _ hg hu λ g g' u u' h k.
            bind-Makes float inputs end (neg_real-Makes float inputs end small h) λ _ negative.
              bind-Makes float inputs end (natural_exp-Makes negative base) λ _ exp.
                bind-Makes float inputs end (add-Makes float inputs end small unit exp)
                  λ _ denominator.
                    bind-Makes float inputs end (reciprocal_real-Makes denominator) λ _ sigmoid.
                      bind-Makes float inputs end
                        (scale_signed-Makes float inputs end small h sigmoid)
                        λ _ silu. mul_signed-Makes float inputs end small silu k
