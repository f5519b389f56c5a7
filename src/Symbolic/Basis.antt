-- ===== src/Symbolic/Basis.antt =====
-- `Basis`, `EvalError` and the real evaluation of closed terms of crates/domain/src/symbolic.rs.
use bml.Prelude.{not, ◌||◌, if◌then◌else◌, Result, ok, err, ◌>>=◌}
use bml.Float.{Float}
use bml.Symbolic.Term.{ClosedTerm}
use bml.Symbolic.Term as Term

pub data Basis : Type 0 where
  eml : Basis
  bml_basis : Basis

module _ (float : Float) where
  open float use {F64, is_finite}

  pub data EvalError : Type 0 where
    non_finite_input : EvalError
    log_domain : F64 → EvalError
    overflow : EvalError
    underflow : EvalError

  abbrev pub powers : Basis → F64 → F64 → F64 × F64
  powers eml x y = (float.exp x, float.ln y)
  powers bml_basis x y = (float.exp2 x, float.log2 y)

  unfoldable pub apply_real : Basis → F64 → F64 → Result EvalError F64
  apply_real basis x y =
      if not (is_finite x) || not (is_finite y)
      then err non_finite_input
      else if float.le y float.zero
      then err (log_domain y)
      else (let (exp, log) = powers basis x y in
          if not (is_finite exp)
          then err overflow
          else if float.eq exp float.zero
          then err underflow
          else (let result = float.sub exp log in
              if is_finite result then ok result else err overflow))

  unfoldable pub evaluate_real : Basis → ClosedTerm → Result EvalError F64
  evaluate_real basis Term.one = ok float.one
  evaluate_real basis (Term.op left right) = do
    x ← evaluate_real basis left
    y ← evaluate_real basis right
    apply_real basis x y
