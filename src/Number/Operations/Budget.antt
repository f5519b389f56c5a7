-- ===== src/Number/Operations/Budget.antt =====
-- The budget of a rule of crates/domain/src/number/operations.rs, and the term that it builds.
use bml.Prelude.{
  ℕ, ◌+◌, ◌^◌, ◌≤◌, ◌<◌, ◌≡◌, refl, sym, ap, ◌∙◌, inl, inr, arith, ltb, ltb→lt, ltb→le, Bool-cases,
  length, length-append, ok, err, ◌>>=◌,
}
use bml.Symbolic.Term.{ClosedTerm, size}
use bml.Symbolic.Term as Term
use bml.Number.Prefix.{encode}
use bml.Number.Encoding.{Bml, BuildError, bit_limit, bit_len, digits}
use bml.Number.Encoding as Encoding
use bml.Number.Encoding.Bits.{length-digits}
use bml.Number.Encoding.Op.{Represents, op_with_limit_lem}
use bml.Number.Operations.{Rules, Built}
use bml.Number.Operations as Rule
use bml.Number.Operations.Size.{lengths}

length-encode : (t : ClosedTerm) → length (encode t) ≡ size t
unfolding encode size
length-encode Term.one = refl
length-encode (Term.op l r) =
    omega (arith, length-append (encode l) (encode r), length-encode l, length-encode r)

pub bit_len-size : {b : Bml} {t : ClosedTerm} → Represents b t → bit_len b ≡ size t
bit_len-size {b} {t} r =
    sym (length-digits (Encoding.bit b) (bit_len b)) ∙ ap length r.code_is ∙ length-encode t

-- What a rule with the budget `m` makes of the term `t`: the code of `t` if it fits, and otherwise
-- the report of a term that does not.
pub data Builds (m : ℕ) (t : ClosedTerm) : Built → Type 0 where
  fits : {b : Bml} → Represents b t → size t ≤ m → Builds m t (ok b)
  exceeds : (n : ℕ) → m < n → n ≤ size t → Builds m t (err (bit_limit n m))

-- A later part of the same term.
pub Builds-bind :
    {m : ℕ} {s t : ClosedTerm} {r : Built} {f : Bml → Built}
    → size s ≤ size t
    → Builds m s r
    → ((b : Bml) → Represents b s → Builds m t (f b))
    → Builds m t (r >>= f)
Builds-bind le (fits r l) k = k _ r
Builds-bind le (exceeds n l h) k = exceeds n l (omega arith)

pub op-Builds :
    (self : Rules) {a b : Bml} {t u : ClosedTerm}
    → Represents a t
    → Represents b u
    → size (Term.op t u) + 64 < 2 ^ 64
    → Builds self.max_bits (Term.op t u) (Rule.op self a b)
unfolding Rule.op
op-Builds self {a} {b} ra rb small =
    let la = bit_len-size ra in
    let lb = bit_len-size rb in
    let (r, e, rr, l) = op_with_limit_lem a b self.max_bits ra rb (omega lengths) in
    elim (Bool-cases (ltb self.max_bits (bit_len a + bit_len b + 1))) [
      | inl over ↦
          rw (e, over)
            (exceeds (bit_len a + bit_len b + 1) (ltb→lt self.max_bits _ over) (omega lengths))
      | inr within ↦ rw (e, within) (fits rr (omega (lengths, ltb→le self.max_bits _ within)))
    ]
