-- ===== src/Number/Encoding/Eval/Correct.antt =====
-- `Bml::to_f64` of crates/domain/src/number/encoding.rs beside the evaluation of terms.
use bml.Prelude.{
  ℕ, zero, suc, ◌+◌, ◌≡◌, refl, sym, ap, ap₂, ◌∙◌, Bool, true, none, some, List, [], ◌∷◌, ◌++◌,
  append_assoc, append-nil, ◌↔◌, arith, Result, ok, err, ◌>>=◌,
}
use bml.Float.{Float}
use bml.Symbolic.Term.{ClosedTerm}
use bml.Symbolic.Term as Term
use bml.Symbolic.Basis.{EvalError, apply_real, bml_basis, evaluate_real}
use bml.Number.Prefix.{encode}
use bml.Number.Encoding.{Bml, bit, bit_len, digits, get_last?}
use bml.Number.Encoding.Op.{Represents}
use bml.Number.Encoding.Eval.{Run, run_bind, step, run_from, bottom, to_f64}

some_eq {ℓ} : {A : Type ℓ} {a b : A} → some a ≡ some b → a ≡ b
some_eq h = cc

module _ (float : Float) where
  open float use {F64}

  -- The evaluation of a term that meets the right operand first.
  unfoldable pub evaluate_right : ClosedTerm → Result (EvalError float) F64
  evaluate_right Term.one = ok float.one
  evaluate_right (Term.op left right) = do
    y ← evaluate_right right
    x ← evaluate_right left
    apply_real float bml_basis x y

  -- The loop on a list of bits, the last one first.
  run_code : List Bool → Run float (List F64)
  run_code [] = some (ok [])
  run_code (b ∷ bs) = run_bind float (run_code bs) (step float b)

  run_bind_assoc :
      (m : Run float (List F64)) (f g : List F64 → Run float (List F64))
      → run_bind float (run_bind float m f) g ≡ run_bind float m (λ s. run_bind float (f s) g)
  run_bind_assoc none f g = refl
  run_bind_assoc (some (err e)) f g = refl
  run_bind_assoc (some (ok s)) f g = refl

  run_bind-unit : (m : Run float (List F64)) → run_bind float m (λ s. some (ok s)) ≡ m
  run_bind-unit none = refl
  run_bind-unit (some (err e)) = refl
  run_bind-unit (some (ok s)) = refl

  -- The last turn of the loop.
  run_from-suc :
      (b : Bml) (n i : ℕ) (stack : List F64)
      → run_from float b (suc n) i stack
        ≡ run_bind float (run_from float b n i stack) (step float (bit b (i + n)))
  unfolding run_from
  run_from-suc b zero i stack =
      run_bind-unit (step float (bit b i) stack)
      ∙ ap (λ j. step float (bit b j) stack) (omega arith)
  run_from-suc b (suc n) i stack =
      ap (run_bind float (step float (bit b i) stack)) (λ j later. run_from-suc b n (i + 1) later j)
      ∙ sym (
          run_bind_assoc (step float (bit b i) stack) (run_from float b n (i + 1))
            (step float (bit b (i + 1 + n))))
      ∙ ap
          (λ k.
            run_bind float
              (run_bind float (step float (bit b i) stack) (run_from float b n (i + 1)))
              (step float (bit b k)))
          (omega arith)

  run_from-digits : (b : Bml) (n : ℕ) → run_from float b n 0 [] ≡ run_code (digits (bit b) n)
  unfolding run_code digits
  run_from-digits b zero = unfold run_from in refl
  run_from-digits b (suc n) =
      run_from-suc b n 0 []
      ∙ ap₂ (λ m i. run_bind float m (step float (bit b i))) (run_from-digits b n) (omega arith)

  -- The value of a term on a stack.
  abbrev pushed : Result (EvalError float) F64 → List F64 → Run float (List F64)
  pushed r stack = some (r >>= λ v. ok (v ∷ stack))

  apply_pushed :
      (m : Run float (List F64)) (left right : Result (EvalError float) F64)
      → run_bind float
          (run_bind float (run_bind float m (pushed right)) (pushed left))
          (step float true)
        ≡ run_bind float m (pushed (right >>= λ y. left >>= λ x. apply_real float bml_basis x y))
  unfolding step
  apply_pushed none left right = refl
  apply_pushed (some (err e)) left right = refl
  apply_pushed (some (ok s)) left (err e) = refl
  apply_pushed (some (ok s)) (err e) (ok y) = refl
  apply_pushed (some (ok s)) (ok x) (ok y) = refl

  run_code-encode :
      (t : ClosedTerm) (bs : List Bool)
      → run_code (encode t ++ bs) ≡ run_bind float (run_code bs) (pushed (evaluate_right t))
  unfolding run_code encode evaluate_right step
  run_code-encode Term.one bs = refl
  run_code-encode (Term.op l r) bs =
      ap (λ c. run_bind float (run_code c) (step float true))
        (append_assoc (encode l) (encode r) bs)
      ∙ ap (λ m. run_bind float m (step float true))
          (run_code-encode l (encode r ++ bs)
            ∙ ap (λ m. run_bind float m (pushed (evaluate_right l))) (run_code-encode r bs))
      ∙ apply_pushed (run_code bs) (evaluate_right l) (evaluate_right r)

  bottom-pushed :
      (r : Result (EvalError float) F64) → run_bind float (pushed r []) (bottom float) ≡ some r
  unfolding bottom get_last?
  bottom-pushed (ok v) = refl
  bottom-pushed (err e) = refl

  -- On the code of a term, `to_f64` does not panic and evaluates the term, the right operand first.
  to_f64-right :
      (b : Bml) {t : ClosedTerm} → Represents b t → to_f64 float b ≡ some (evaluate_right t)
  unfolding to_f64
  to_f64-right b {t} r =
      ap (λ m. run_bind float m (bottom float))
        (run_from-digits b (bit_len b)
          ∙ ap run_code (r.code_is ∙ sym (append-nil (encode t)))
          ∙ run_code-encode t [])
      ∙ unfold run_code in bottom-pushed (evaluate_right t)

  -- Two orders of evaluation: the same value, or an error from each.
  data Agree : Result (EvalError float) F64 → Result (EvalError float) F64 → Type 0 where
    both_ok : (v : F64) → Agree (ok v) (ok v)
    both_err : (e f : EvalError float) → Agree (err e) (err f)

  Agree-op :
      {a b c d : Result (EvalError float) F64}
      → Agree a b
      → Agree c d
      → Agree
          (a >>= λ x. c >>= λ y. apply_real float bml_basis x y)
          (d >>= λ y. b >>= λ x. apply_real float bml_basis x y)
  Agree-op (both_ok x) (both_ok y) = same (apply_real float bml_basis x y)
    where
      same : (r : Result (EvalError float) F64) → Agree r r
      same (ok v) = both_ok v
      same (err e) = both_err e e
  Agree-op (both_ok x) (both_err e f) = both_err e f
  Agree-op (both_err e f) (both_ok y) = both_err e f
  Agree-op (both_err e f) (both_err g h) = both_err e h

  evaluate-Agree : (t : ClosedTerm) → Agree (evaluate_real float bml_basis t) (evaluate_right t)
  unfolding evaluate_real evaluate_right
  evaluate-Agree Term.one = both_ok float.one
  evaluate-Agree (Term.op l r) = Agree-op (evaluate-Agree l) (evaluate-Agree r)

  Agree-ok : {a b : Result (EvalError float) F64} (v : F64) → Agree a b → (b ≡ ok v) ↔ (a ≡ ok v)
  Agree-ok v (both_ok w) = (λ h. h, λ h. h)
  Agree-ok v (both_err e f) = (λ h. cc, λ h. cc)

  -- On the code of a term, `to_f64` does not panic, and it returns a value exactly when the evaluation
  -- of the term in the base two, `evaluate_real`, returns that value.
  pub to_f64-evaluate_real :
      (b : Bml) {t : ClosedTerm} (v : F64)
      → Represents b t
      → ((r : Result (EvalError float) F64) × (to_f64 float b ≡ some r))
        × ((to_f64 float b ≡ some (ok v)) ↔ (evaluate_real float bml_basis t ≡ ok v))
  to_f64-evaluate_real b {t} v r =
      let e = to_f64-right b r in
      let (there, back) = Agree-ok v (evaluate-Agree t) in
      ((evaluate_right t, e), (λ h. there (some_eq (sym e ∙ h)), λ h. e ∙ ap some (back h)))
