-- ===== src/Number/Stream/Depth.antt =====
-- `check_depth` and `operator_count` of crates/domain/src/number/stream.rs beside closed terms.
use bml.Prelude.{
  ℕ, suc, ◌+◌, ◌*◌, ◌^◌, ◌≤◌, ◌<◌, max, ◌≡◌, refl, sym, ap, ap₂, ◌∙◌, Bool, true, false, List, [],
  ◌∷◌, ◌++◌, append_assoc, append-nil, inl, inr, ◌↔◌, arith, ltb, ltb→lt, lt→ltb, ltb→le,
  ltb-eq-false, if◌then◌else◌, Bool-cases, length, Result, ok, err,
}
use bml.Symbolic.Term.{ClosedTerm, size}
use bml.Symbolic.Term as Term
use bml.Number.Prefix.{encode, encode_all}
use bml.Number.Prefix.Check.{join_trailing}
use bml.Number.Encoding.{Bml, checked_add}
use bml.Number.Encoding.Op.{Represents}
use bml.Number.Operations.Budget.{bit_len-size}
use bml.Number.Stream.{StreamError, limit, check_depth_from, check_depth, operator_count}

-- The depth of a tree, in which a leaf has depth zero.
unfoldable pub height : ClosedTerm → ℕ
height Term.one = 0
height (Term.op l r) = max (height l) (height r) + 1

-- The number of operators of a tree.
unfoldable pub operators : ClosedTerm → ℕ
operators Term.one = 0
operators (Term.op l r) = operators l + operators r + 1

-- What the loop does after the code of a term of `n` bits.
abbrev after : List Bool → List ℕ → ℕ → ℕ → Result StreamError ℕ
after bits [] i m = ok i
after bits (next ∷ pending) i m = check_depth_from bits pending next i m

module _ (m : ℕ) (is_usize : m < 2 ^ 64) where
  -- The loop on the marker of an application, one deeper.
  check_depth_from-op :
      (bits : List Bool) (pending : List ℕ) (d i : ℕ)
      → check_depth_from (true ∷ bits) pending d i m ≡ (
          if ltb m (d + 1)
          then err limit
          else check_depth_from bits ((d + 1) ∷ pending) (d + 1) (i + 1) m)
  unfolding check_depth_from checked_add
  check_depth_from-op bits pending d i = elim (Bool-cases (ltb (d + 1) (2 ^ 64))) [
    | inl fits ↦ rw fits refl
    | inr over ↦
        let le = ltb→le (d + 1) (2 ^ 64) over in rw (over, lt→ltb m (d + 1) (omega arith)) refl
  ]

  check_depth_from-encode :
      (t : ClosedTerm) (rest : List Bool) (pending : List ℕ) (d i : ℕ)
      → d ≤ m
      → check_depth_from (encode t ++ rest) pending d i m
        ≡ (if ltb m (d + height t) then err limit else after rest pending (i + size t) m)
  unfolding encode height size
  check_depth_from-encode Term.one rest [] d i le =
      unfold check_depth_from in rw (ltb-eq-false m (d + 0) (omega arith)) refl
  check_depth_from-encode Term.one rest (next ∷ pending) d i le =
      unfold check_depth_from in rw (ltb-eq-false m (d + 0) (omega arith)) refl
  check_depth_from-encode (Term.op l r) rest pending d i le =
      check_depth_from-op ((encode l ++ encode r) ++ rest) pending d i
      ∙ elim (Bool-cases (ltb m (d + 1))) [
        | inl over ↦
            let gt = ltb→lt m (d + 1) over in
            rw (over, lt→ltb m (d + (max (height l) (height r) + 1)) (omega arith)) refl
        | inr within ↦
            let le' = ltb→le m (d + 1) within in
            rw within (
              ap (λ bits. check_depth_from bits ((d + 1) ∷ pending) (d + 1) (i + 1) m)
                (append_assoc (encode l) (encode r) rest)
              ∙ check_depth_from-encode l (encode r ++ rest) ((d + 1) ∷ pending) (d + 1) (i + 1) le'
              ∙ elim (Bool-cases (ltb m (d + 1 + height l))) [
                | inl over ↦
                    let gt = ltb→lt m (d + 1 + height l) over in
                    rw (over, lt→ltb m (d + (max (height l) (height r) + 1)) (omega arith)) refl
                | inr left_fits ↦
                    let le_l = ltb→le m (d + 1 + height l) left_fits in
                    rw left_fits (
                      check_depth_from-encode r rest pending (d + 1) (i + 1 + size l) le'
                      ∙ ap₂ (λ q n. if q then err limit else after rest pending n m)
                          (same_test (height l) (height r) le_l) (omega arith))
              ])
      ]
    where
      same_test : (a b : ℕ) → d + 1 + a ≤ m → ltb m (d + 1 + b) ≡ ltb m (d + (max a b + 1))
      same_test a b h = elim (Bool-cases (ltb m (d + 1 + b))) [
        | inl over ↦
            over ∙ sym (lt→ltb m (d + (max a b + 1)) (omega (arith, ltb→lt m (d + 1 + b) over)))
        | inr within ↦
            within
            ∙ sym (ltb-eq-false m (d + (max a b + 1)) (omega (arith, ltb→le m (d + 1 + b) within)))
      ]

  deeper_ok :
      (bits : List Bool) (pending : List ℕ) (d i : ℕ) {n : ℕ}
      → check_depth_from (true ∷ bits) pending d i m ≡ ok n
      → check_depth_from bits ((d + 1) ∷ pending) (d + 1) (i + 1) m ≡ ok n
  deeper_ok bits pending d i {n} h =
      let rest = check_depth_from bits ((d + 1) ∷ pending) (d + 1) (i + 1) m in
      let e : (if ltb m (d + 1) then err limit else rest) ≡ ok n =
        sym (check_depth_from-op bits pending d i) ∙ h in
      elim (Bool-cases (ltb m (d + 1))) [
        | inl over ↦ let z = rw over at e in cc
        | inr within ↦ rw within at e
      ]

  -- Bits that the loop accepts begin with the codes of one term and one more for each pending depth.
  check_depth_from-ok :
      (bits : List Bool) (pending : List ℕ) (d i : ℕ) {n : ℕ}
      → check_depth_from bits pending d i m ≡ ok n
      → (ts : List ClosedTerm) × (rest : List Bool) × (length ts ≡ suc (length pending))
        × (bits ≡ encode_all ts ++ rest)
  unfolding check_depth_from encode_all encode
  check_depth_from-ok [] pending d i h = cc
  check_depth_from-ok (true ∷ bits) pending d i {n} h =
      let e = deeper_ok bits pending d i h in
      let (ts, rest, l, q) = check_depth_from-ok bits ((d + 1) ∷ pending) (d + 1) (i + 1) e in
      let (us, k, p) = join_trailing (length pending) ts bits rest (omega arith) q in
      (us, rest, k, p)
  check_depth_from-ok (false ∷ bits) [] d i h = (Term.one ∷ [], bits, refl, refl)
  check_depth_from-ok (false ∷ bits) (next ∷ pending) d i h =
      let (ts, rest, l, q) = check_depth_from-ok bits pending next (i + 1) h in
      (Term.one ∷ ts, rest, omega arith, ap (λ bs. false ∷ bs) q)

-- On the code of a term and any bits after it, under a depth limit in `usize`, `check_depth` reports
-- the limit when the term is deeper, and otherwise the number of bits of the term.
pub check_depth-encode :
    (t : ClosedTerm) (rest : List Bool) (max_depth : ℕ)
    → max_depth < 2 ^ 64
    → check_depth (encode t ++ rest) max_depth
      ≡ (if ltb max_depth (height t) then err limit else ok (size t))
unfolding check_depth
check_depth-encode t rest max_depth h =
    check_depth_from-encode max_depth h t rest [] 0 0 (omega arith)
    ∙ ap₂ (λ k n. if ltb max_depth k then err limit else ok n) (omega arith) (omega arith)

single :
    (bits : List Bool)
    → (ts : List ClosedTerm) × (rest : List Bool) × (length ts ≡ 1) × (bits ≡ encode_all ts ++ rest)
    → (t : ClosedTerm) × (rest : List Bool) × (bits ≡ encode t ++ rest)
single bits ([], rest, n, e) = absurd (omega arith)
single bits (t ∷ [], rest, n, e) =
    (t, rest, e ∙ ap (λ x. x ++ rest) (unfold encode_all in append-nil (encode t)))
single bits (t ∷ u ∷ ts, rest, n, e) = absurd (omega arith)

-- Under a depth limit in `usize`, `check_depth` accepts exactly the bits that begin with the code of
-- a term within the limit, and answers with the number of bits of that term.
pub check_depth-ok_iff :
    (bits : List Bool) (max_depth n : ℕ)
    → max_depth < 2 ^ 64
    → (check_depth bits max_depth ≡ ok n) ↔ (
        (t : ClosedTerm) × (rest : List Bool) × (bits ≡ encode t ++ rest)
        × (height t ≤ max_depth)
        × (n ≡ size t))
unfolding check_depth
check_depth-ok_iff bits max_depth n small = (
  λ h.
      let (t, rest, e) = single bits (check_depth_from-ok max_depth small bits [] 0 0 {n = n} h) in
      let q =
        sym (check_depth-encode t rest max_depth small)
        ∙ ap (λ bs. check_depth bs max_depth) (sym e)
        ∙ h in
      elim (Bool-cases (ltb max_depth (height t))) [
        | inl over ↦ let z = rw over at q in cc
        | inr within ↦
            let z = rw within at q in (t, rest, e, ltb→le max_depth (height t) within, cc)
      ],
  λ (t, rest, e, le, q).
      ap (λ bs. check_depth bs max_depth) e
      ∙ check_depth-encode t rest max_depth small
      ∙ rw (ltb-eq-false max_depth (height t) le) (ap ok (sym q)),
)

odd_size : (t : ClosedTerm) → size t ≡ 2 * operators t + 1
unfolding size operators
odd_size Term.one = refl
odd_size (Term.op l r) = omega (arith, odd_size l, odd_size r)

-- The operators that `operator_count` counts are those of the term that the code stands for.
pub operator_count-operators :
    (b : Bml) {t : ClosedTerm} → Represents b t → operator_count b ≡ operators t
unfolding operator_count
operator_count-operators b {t} r = omega (arith, bit_len-size r, odd_size t)
