-- ===== src/Number/Encoding/Eval.antt =====
-- `Bml::to_f64` of crates/domain/src/number/encoding.rs: a stack machine that reads the code from its
-- end.
pub mod Correct
use bml.Prelude.{
  ℕ, zero, suc, ◌+◌, ◌-◌, ◌*◌, ◌/◌, ◌%◌, ◌^◌, ◌≤◌, ◌<◌, min, max, ◌≡◌, ◌≢◌, refl, sym, ap, ap₂, ◌∙◌,
  subst, Bool, true, false, not, ◌&&◌, ◌||◌, cond, Option, none, some, List, [], ◌∷◌, ◌++◌, map,
  append_assoc, append-nil, ◌⊎◌, inl, inr, ◌↔◌, arith, tests, ltb, leb, ltb→lt, lt→ltb, ltb→le,
  ltb-eq-false, leb→le, ◌==◌, ==_iff, ==_refl, if◌then◌else◌, Bool-cases, Option-cases, length,
  get_elem?, get_or, set, take, drop, replicate, length-append, length-set, length-replicate,
  get_or-set_self, get_or-set_ne, get_or-replicate, get_or_of_ge, length-drop, drop-length_append,
  take-length_append, get_elem?-append_left, get_elem?-append_end, length-map, Result, ok, err,
  ok_or, map_err, ◌>>=◌, ◌>>◌, Result-cases, >>-eq-ok,
}
use bml.Float.{Float}
use bml.Symbolic.Basis.{EvalError, apply_real, bml_basis}
use bml.Number.Encoding.{Bml, bit, bit_len, get_last?}

module _ (float : Float) where
  open float use {F64}

  -- A panic is `none`.
  abbrev pub Run : Type 0 → Type 0
  Run A = Option (Result (EvalError float) A)

  abbrev pub run_bind : {A B : Type 0} → Run A → (A → Run B) → Run B
  run_bind none f = none
  run_bind (some (err e)) f = some (err e)
  run_bind (some (ok a)) f = f a

  -- The body of the loop: an operator pops its left and then its right operand.
  unfoldable pub step : Bool → List F64 → Run (List F64)
  step false stack = some (ok (float.one ∷ stack))
  step true (left ∷ right ∷ stack) =
      some (apply_real float bml_basis left right >>= λ value. ok (value ∷ stack))
  step true (left ∷ []) = none
  step true [] = none

  -- The loop over the next `n` indices, from `index` on.
  unfoldable pub run_from : Bml → ℕ → ℕ → List F64 → Run (List F64)
  run_from b zero index stack = some (ok stack)
  run_from b (suc n) index stack = run_bind (step (bit b index) stack) (run_from b n (index + 1))

  -- `stack[0]` is the value pushed first.
  unfoldable pub bottom : List F64 → Run F64
  bottom stack = elim (get_last? stack) [ none ↦ none | some value ↦ some (ok value) ]

  unfoldable pub to_f64 : Bml → Run F64
  to_f64 b = run_bind (run_from b (bit_len b) 0 []) bottom
