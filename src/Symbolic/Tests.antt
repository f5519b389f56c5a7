-- ===== src/Symbolic/Tests.antt =====
-- The theorems on the open terms of crates/domain/src/symbolic.rs at concrete inputs.
use bml.Prelude.{◌≡◌, none, some, [], ◌∷◌, ◌==◌, if◌then◌else◌}
use bml.Symbolic.Term.{ClosedTerm}
use bml.Symbolic.Term as Term
use bml.Symbolic.Open.{Name, Env, OpenTerm, closed, open_var, open_op, bind, collapse}
use bml.Symbolic.Open.Closing.{Closes, collapse-bind, or_else, bind-bind}

abbrev x : Name
x = b'x' ∷ []

abbrev y : Name
y = b'y' ∷ []

-- `x` is one.
abbrev known : Env
known [] = none
known (byte ∷ bytes) = if byte == b'x' then some Term.one else none

abbrev formula : OpenTerm
formula = open_op (open_var x) (open_op (open_var y) (closed Term.one))

collapse-bind_example : Closes known formula (collapse (bind formula known))
collapse-bind_example = collapse-bind known formula

bind-bind_example :
    bind (bind formula known) (λ name. some Term.one)
    ≡ bind formula (or_else known (λ name. some Term.one))
bind-bind_example = bind-bind known (λ name. some Term.one) formula
