-- ===== src/Symbolic/Open/Closing.antt =====
-- What binding and closing an open term of crates/domain/src/symbolic.rs returns.
use bml.Prelude.{
  ◌≡◌, refl, ap, ap₂, none, some, List, [], ◌∷◌, ◌++◌, inl, inr, Option-cases, Result, ok, err,
  ◌>>=◌,
}
use bml.Symbolic.Term.{ClosedTerm}
use bml.Symbolic.Term as Term
use bml.Symbolic.Open.{
  Name, Env, OpenTerm, closed, open_var, open_op, UnboundVariable, bind_name, bind, collapse,
}

-- The names of a term that the environment lacks, from left to right.
unfoldable pub unbound : Env → OpenTerm → List Name
unbound env (closed term) = []
unbound env (open_var name) = elim (env name) [ none ↦ name ∷ [] | some term ↦ [] ]
unbound env (open_op left right) = unbound env left ++ unbound env right

-- The closed term is the open one with the values of its names in their places.
pub data Instance (env : Env) : OpenTerm → ClosedTerm → Type 0 where
  instance_closed : (term : ClosedTerm) → Instance env (closed term) term
  instance_var :
      (name : Name) (term : ClosedTerm) → env name ≡ some term → Instance env (open_var name) term
  instance_op :
      (left right : OpenTerm) (l r : ClosedTerm)
      → Instance env left l
      → Instance env right r
      → Instance env (open_op left right) (Term.op l r)

-- What closing a bound term should return.
pub data Closes (env : Env) (t : OpenTerm) : Result UnboundVariable ClosedTerm → Type 0 where
  complete : (c : ClosedTerm) → unbound env t ≡ [] → Instance env t c → Closes env t (ok c)
  missing :
      (name : Name) (rest : List Name)
      → unbound env t ≡ name ∷ rest
      → Closes env t (err (record { name = name }))

Closes-op :
    (env : Env) (left right : OpenTerm) {a b : Result UnboundVariable ClosedTerm}
    → Closes env left a
    → Closes env right b
    → Closes env (open_op left right) (a >>= λ l. b >>= λ r. ok (Term.op l r))
unfolding unbound
Closes-op env left right (complete l e i) (complete r f j) =
    complete (Term.op l r) (ap₂ ◌++◌ e f) (instance_op left right l r i j)
Closes-op env left right (complete l e i) (missing name rest f) = missing name rest (ap₂ ◌++◌ e f)
Closes-op env left right (missing name rest e) cb =
    missing name (rest ++ unbound env right) (ap (λ ns. ns ++ unbound env right) e)

-- Closing a term after its names are bound returns the term with the values of all its names in their
-- places when the environment has them all, and otherwise the first name, from the left, that it
-- lacks.
pub collapse-bind : (env : Env) (t : OpenTerm) → Closes env t (collapse (bind t env))
unfolding bind collapse unbound bind_name
collapse-bind env (closed term) = complete term refl (instance_closed term)
collapse-bind env (open_var name) = elim (Option-cases (env name)) [
  | inl e ↦ rw e (missing name [] (rw (e, unbound) refl))
  | inr (term, e) ↦ rw e (complete term (rw (e, unbound) refl) (instance_var name term e))
]
collapse-bind env (open_op left right) =
    Closes-op env left right (collapse-bind env left) (collapse-bind env right)

-- The environment that looks a name up in the first and then in the second.
abbrev pub or_else : Env → Env → Env
or_else first second name = elim (first name) [ none ↦ second name | some term ↦ some term ]

-- Binding in two steps is binding once, where the earlier environment has precedence.
pub bind-bind :
    (first second : Env) (t : OpenTerm) → bind (bind t first) second ≡ bind t (or_else first second)
unfolding bind bind_name
bind-bind first second (closed term) = refl
bind-bind first second (open_var name) = elim (Option-cases (first name)) [
  | inl e ↦ rw (e, or_else) refl
  | inr (term, e) ↦ rw (e, or_else) refl
]
bind-bind first second (open_op left right) =
    ap₂ open_op (bind-bind first second left) (bind-bind first second right)
