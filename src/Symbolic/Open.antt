-- ===== src/Symbolic/Open.antt =====
-- `OpenTerm` of crates/domain/src/symbolic.rs. A `String` is the list of its bytes, and the
-- environment, a `HashMap` that is only read, is its function `get`.
pub mod Closing
use bml.Prelude.{
  ℕ, zero, suc, ◌+◌, ◌-◌, ◌*◌, ◌/◌, ◌%◌, ◌^◌, ◌≤◌, ◌<◌, min, max, ◌≡◌, ◌≢◌, refl, sym, ap, ap₂, ◌∙◌,
  subst, Bool, true, false, not, ◌&&◌, ◌||◌, cond, Option, none, some, List, [], ◌∷◌, ◌++◌, map,
  append_assoc, append-nil, ◌⊎◌, inl, inr, ◌↔◌, arith, tests, ltb, leb, ltb→lt, lt→ltb, ltb→le,
  ltb-eq-false, leb→le, ◌==◌, ==_iff, ==_refl, if◌then◌else◌, Bool-cases, Option-cases, length,
  get_elem?, get_or, set, take, drop, replicate, length-append, length-set, length-replicate,
  get_or-set_self, get_or-set_ne, get_or-replicate, get_or_of_ge, length-drop, drop-length_append,
  take-length_append, get_elem?-append_left, get_elem?-append_end, length-map, Result, ok, err,
  ok_or, map_err, ◌>>=◌, ◌>>◌, Result-cases, >>-eq-ok,
}
use bml.Symbolic.Term.{ClosedTerm}
use bml.Symbolic.Term as Term

abbrev pub Name : Type 0
Name = List ℕ

abbrev pub Env : Type 0
Env = Name → Option ClosedTerm

-- The constructor `open_op` is also the function `OpenTerm::op`.
pub data OpenTerm : Type 0 where
  closed : ClosedTerm → OpenTerm
  open_var : Name → OpenTerm
  open_op : OpenTerm → OpenTerm → OpenTerm

pub record UnboundVariable : Type 0 where
  pub name : Name

unfoldable pub bind_name : Name → Option ClosedTerm → OpenTerm
bind_name name none = open_var name
bind_name name (some term) = closed term

unfoldable pub bind : OpenTerm → Env → OpenTerm
unfolding bind_name
bind (closed term) env = closed term
bind (open_var name) env = bind_name name (env name)
bind (open_op left right) env = open_op (bind left env) (bind right env)

unfoldable pub collapse : OpenTerm → Result UnboundVariable ClosedTerm
collapse (closed term) = ok term
collapse (open_var name) = err (record { name = name })
collapse (open_op left right) = do l ← collapse left; r ← collapse right; ok (Term.op l r)
