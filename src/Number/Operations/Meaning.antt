-- ===== src/Number/Operations/Meaning.antt =====
-- What the rules of crates/domain/src/number/operations.rs compute over the reals. The reals are a
-- parameter: an abelian group with `2 ^ x` and its inverse on the positive elements.
use bml.Prelude.{◌≡◌, sym, ap, ap₂, ◌∙◌}
use bml.Symbolic.Term.{ClosedTerm, size}
use bml.Symbolic.Term as Term
use bml.Number.Operations.Expansion as Expansion

-- Facts of the real numbers: subtraction, and the powers of two as an isomorphism onto the
-- positive reals that takes sums to products.
pub record Reals : Type 1 where
  pub R : Type 0
  pub zero : R
  pub one : R
  pub plus : R → R → R
  pub minus : R → R
  pub times : R → R → R
  pub over : R → R → R
  pub exp2 : R → R
  pub log2 : R → R
  pub Positive : R → Type 0
  pub plus_assoc : (x y z : R) → plus (plus x y) z ≡ plus x (plus y z)
  pub plus_comm : (x y : R) → plus x y ≡ plus y x
  pub plus-zero : (x : R) → plus x zero ≡ x
  pub plus-minus : (x : R) → plus x (minus x) ≡ zero
  pub log2-exp2 : (x : R) → log2 (exp2 x) ≡ x
  pub exp2-log2 : (x : R) → Positive x → exp2 (log2 x) ≡ x
  pub exp2-zero : exp2 zero ≡ one
  pub exp2-plus : (x y : R) → exp2 (plus x y) ≡ times (exp2 x) (exp2 y)
  pub exp2-difference : (x y : R) → exp2 (plus x (minus y)) ≡ over (exp2 x) (exp2 y)
  pub exp2-pos : (x : R) → Positive (exp2 x)
  pub gap-pos : (x : R) → Positive (plus (exp2 x) (minus x))

module _ (reals : Reals) where
  open reals use {
    R, zero, one, plus, minus, times, over, exp2, log2, Positive, plus_assoc, plus_comm, plus-zero,
    plus-minus, log2-exp2, exp2-log2, exp2-zero, exp2-plus, exp2-difference, exp2-pos, gap-pos,
  }

  -- The operator `2 ^ x - log2 y` as the meaning of an application.
  abbrev pub denote : ClosedTerm → R
  denote Term.one = one
  denote (Term.op l r) = plus (exp2 (denote l)) (minus (log2 (denote r)))

  zero-plus : (x : R) → plus zero x ≡ x
  zero-plus x = plus_comm zero x ∙ plus-zero x

  cancel : (x y : R) → plus x (plus (minus x) y) ≡ y
  cancel x y = sym (plus_assoc x (minus x) y) ∙ ap (λ z. plus z y) (plus-minus x) ∙ zero-plus y

  -- The inverse is unique.
  minus_unique : (x y : R) → plus x y ≡ zero → minus x ≡ y
  minus_unique x y h =
      sym (plus-zero (minus x))
      ∙ ap (plus (minus x)) (sym h)
      ∙ sym (plus_assoc (minus x) x y)
      ∙ ap (λ z. plus z y) (plus_comm (minus x) x ∙ plus-minus x)
      ∙ zero-plus y

  minus-minus : (x : R) → minus (minus x) ≡ x
  minus-minus x = minus_unique (minus x) x (plus_comm (minus x) x ∙ plus-minus x)

  minus-plus : (x y : R) → minus (plus x y) ≡ plus (minus x) (minus y)
  minus-plus x y = minus_unique (plus x y) (plus (minus x) (minus y)) (
      ap (λ z. plus z (plus (minus x) (minus y))) (plus_comm x y)
      ∙ plus_assoc y x (plus (minus x) (minus y))
      ∙ ap (plus y) (cancel x (minus y))
      ∙ plus-minus y)

  minus-zero : minus zero ≡ zero
  minus-zero = minus_unique zero zero (plus-zero zero)

  -- `p - ((p - x) - y) = x + y`
  regroup : (p x y : R) → plus p (minus (plus (plus p (minus x)) (minus y))) ≡ plus x y
  regroup p x y =
      ap (plus p) (
        minus-plus (plus p (minus x)) (minus y)
        ∙ ap₂ plus (minus-plus p (minus x) ∙ ap (plus (minus p)) (minus-minus x)) (minus-minus y))
      ∙ ap (plus p) (plus_assoc (minus p) x y)
      ∙ cancel p (plus x y)

  log2-one : log2 one ≡ zero
  log2-one = ap log2 (sym exp2-zero) ∙ log2-exp2 zero

  denote-exp2 : (t : ClosedTerm) → denote (Expansion.exp2 t) ≡ exp2 (denote t)
  unfolding Expansion.exp2
  denote-exp2 t =
      ap (plus (exp2 (denote t))) (ap minus log2-one ∙ minus-zero) ∙ plus-zero (exp2 (denote t))

  denote-log2 : (t : ClosedTerm) → denote (Expansion.log2 t) ≡ log2 (denote t)
  unfolding Expansion.log2
  denote-log2 t =
      ap (λ z. plus (exp2 one) (minus (log2 z))) (denote-exp2 (Term.op Term.one t))
      ∙ ap (λ z. plus (exp2 one) (minus z)) (log2-exp2 (plus (exp2 one) (minus (log2 (denote t)))))
      ∙ ap (plus (exp2 one)) (
          minus-plus (exp2 one) (minus (log2 (denote t)))
          ∙ ap (plus (minus (exp2 one))) (minus-minus (log2 (denote t))))
      ∙ cancel (exp2 one) (log2 (denote t))

  denote-sub_positive :
      (t u : ClosedTerm)
      → Positive (denote t)
      → denote (Expansion.sub_positive t u) ≡ plus (denote t) (minus (denote u))
  unfolding Expansion.sub_positive
  denote-sub_positive t u h =
      ap₂ (λ a b. plus (exp2 a) (minus (log2 b))) (denote-log2 t) (denote-exp2 u)
      ∙ ap₂ (λ a b. plus a (minus b)) (exp2-log2 (denote t) h) (log2-exp2 (denote u))

  denote-gap :
      (t : ClosedTerm) → denote (Expansion.gap t) ≡ plus (exp2 (denote t)) (minus (denote t))
  unfolding Expansion.gap
  denote-gap t =
      ap (λ z. plus (exp2 (denote t)) (minus (log2 z))) (denote-exp2 t)
      ∙ ap (λ z. plus (exp2 (denote t)) (minus z)) (log2-exp2 (denote t))

  exp2_positive : (t : ClosedTerm) → Positive (denote (Expansion.exp2 t))
  exp2_positive t = subst' (sym (denote-exp2 t)) (exp2-pos (denote t))
    where
      subst' : {a b : R} → a ≡ b → Positive a → Positive b
      subst' e h = rw e at h

  gap_positive : (t : ClosedTerm) → Positive (denote (Expansion.gap t))
  gap_positive t = let h = gap-pos (denote t) in rw (← denote-gap t) at h

  -- The rule for sums denotes the sum, for all reals.
  pub denote-add : (t u : ClosedTerm) → denote (Expansion.add t u) ≡ plus (denote t) (denote u)
  unfolding Expansion.add
  denote-add t u =
      denote-sub_positive (Expansion.exp2 t) (Expansion.sub_positive (Expansion.gap t) u)
        (exp2_positive t)
      ∙ ap₂ (λ a b. plus a (minus b)) (denote-exp2 t)
          (denote-sub_positive (Expansion.gap t) u (gap_positive t)
            ∙ ap (λ z. plus z (minus (denote u))) (denote-gap t))
      ∙ regroup (exp2 (denote t)) (denote t) (denote u)

  pub denote-neg : (t : ClosedTerm) → denote (Expansion.neg t) ≡ minus (denote t)
  unfolding Expansion.neg
  denote-neg t =
      denote-sub_positive (Expansion.gap t) (Expansion.exp2 t) (gap_positive t)
      ∙ ap₂ (λ a b. plus a (minus b)) (denote-gap t) (denote-exp2 t)
      ∙ plus_comm (plus (exp2 (denote t)) (minus (denote t))) (minus (exp2 (denote t)))
      ∙ sym (plus_assoc (minus (exp2 (denote t))) (exp2 (denote t)) (minus (denote t)))
      ∙ ap (λ z. plus z (minus (denote t)))
          (plus_comm (minus (exp2 (denote t))) (exp2 (denote t)) ∙ plus-minus (exp2 (denote t)))
      ∙ zero-plus (minus (denote t))

  pub denote-sub :
      (t u : ClosedTerm) → denote (Expansion.sub t u) ≡ plus (denote t) (minus (denote u))
  unfolding Expansion.sub
  denote-sub t u =
      let p = exp2 (denote t) in
      denote-sub_positive (Expansion.exp2 t) (Expansion.add (Expansion.gap t) u) (exp2_positive t)
      ∙ ap₂ (λ a b. plus a (minus b)) (denote-exp2 t)
          (denote-add (Expansion.gap t) u ∙ ap (λ z. plus z (denote u)) (denote-gap t))
      ∙ ap (λ z. plus p (minus (plus (plus p (minus (denote t))) z))) (sym (minus-minus (denote u)))
      ∙ regroup p (denote t) (minus (denote u))

  -- The products and quotients hold for positive operands.
  pub denote-mul :
      (t u : ClosedTerm)
      → Positive (denote t)
      → Positive (denote u)
      → denote (Expansion.mul t u) ≡ times (denote t) (denote u)
  unfolding Expansion.mul
  denote-mul t u ht hu =
      denote-exp2 (Expansion.add (Expansion.log2 t) (Expansion.log2 u))
      ∙ ap exp2 (
          denote-add (Expansion.log2 t) (Expansion.log2 u)
          ∙ ap₂ plus (denote-log2 t) (denote-log2 u))
      ∙ exp2-plus (log2 (denote t)) (log2 (denote u))
      ∙ ap₂ times (exp2-log2 (denote t) ht) (exp2-log2 (denote u) hu)

  pub denote-div :
      (t u : ClosedTerm)
      → Positive (denote t)
      → Positive (denote u)
      → denote (Expansion.div t u) ≡ over (denote t) (denote u)
  unfolding Expansion.div
  denote-div t u ht hu =
      denote-exp2 (Expansion.sub (Expansion.log2 t) (Expansion.log2 u))
      ∙ ap exp2 (
          denote-sub (Expansion.log2 t) (Expansion.log2 u)
          ∙ ap₂ (λ a b. plus a (minus b)) (denote-log2 t) (denote-log2 u))
      ∙ exp2-difference (log2 (denote t)) (log2 (denote u))
      ∙ ap₂ over (exp2-log2 (denote t) ht) (exp2-log2 (denote u) hu)

  pub denote-recip :
      (t : ClosedTerm) → Positive (denote t) → denote (Expansion.recip t) ≡ over one (denote t)
  unfolding Expansion.recip
  denote-recip t ht =
      denote-exp2 (Expansion.neg (Expansion.log2 t))
      ∙ ap exp2 (
          denote-neg (Expansion.log2 t)
          ∙ ap minus (denote-log2 t)
          ∙ sym (zero-plus (minus (log2 (denote t)))))
      ∙ exp2-difference zero (log2 (denote t))
      ∙ ap₂ over exp2-zero (exp2-log2 (denote t) ht)
