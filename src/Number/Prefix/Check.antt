-- ===== src/Number/Prefix/Check.antt =====
-- Which lists of bits the slot count accepts, and why it rejects the others.
use bml.Prelude.{
  ℕ, zero, suc, ◌+◌, ◌≡◌, refl, sym, ap, ap₂, ◌∙◌, Bool, true, false, List, [], ◌∷◌, ◌++◌,
  append_assoc, append-nil, ◌⊎◌, inl, inr, arith, length, ok, err,
}
use bml.Symbolic.Term.{ClosedTerm, one, op}
use bml.Number.Encoding.{trailing_bits, truncated}
use bml.Number.Prefix.{encode, encode_all, check}

-- A code closes one slot.
pub check-encode_append :
    (t : ClosedTerm) (rest : List Bool) (s : ℕ) → check (encode t ++ rest) (suc s) ≡ check rest s
unfolding check encode
check-encode_append one rest s = refl
check-encode_append (op l r) rest s =
    ap (λ b. check b (s + 2)) (append_assoc (encode l) (encode r) rest)
    ∙ ap (check (encode l ++ (encode r ++ rest))) (omega arith)
    ∙ check-encode_append l (encode r ++ rest) (suc s)
    ∙ check-encode_append r rest s

pub check-encode : (t : ClosedTerm) → check (encode t) 1 ≡ ok tt
unfolding check
check-encode t = let p = check-encode_append t [] 0 in rw append-nil at p

-- Two first terms of a forest join under an application.
join :
    (s : ℕ) (ts : List ClosedTerm) (bs : List Bool)
    → length ts ≡ s + 2
    → bs ≡ encode_all ts
    → (us : List ClosedTerm) × (length us ≡ suc s) × (true ∷ bs ≡ encode_all us)
unfolding encode_all encode
join s [] bs h e = absurd (omega arith)
join s (t ∷ []) bs h e = absurd (omega arith)
join s (t ∷ u ∷ ts) bs h e = (
  op t u ∷ ts,
  omega arith,
  ap (λ b. true ∷ b) (e ∙ sym (append_assoc (encode t) (encode u) (encode_all ts))),
)

-- What the slot count accepts from `s` open slots is the code of `s` terms.
pub check-ok :
    (bs : List Bool) (s : ℕ)
    → check bs s ≡ ok tt
    → (ts : List ClosedTerm) × (length ts ≡ s) × (bs ≡ encode_all ts)
unfolding check encode_all encode
check-ok [] zero h = ([], refl, refl)
check-ok [] (suc s) h = cc
check-ok (b ∷ bs) zero h = cc
check-ok (true ∷ bs) (suc s) h = let (ts, n, e) = check-ok bs (s + 2) h in join s ts bs n e
check-ok (false ∷ bs) (suc s) h =
    let (ts, n, e) = check-ok bs s h in (one ∷ ts, omega arith, ap (λ t. false ∷ t) e)

pub join_trailing :
    (s : ℕ) (ts : List ClosedTerm) (bs rest : List Bool)
    → length ts ≡ s + 2
    → bs ≡ encode_all ts ++ rest
    → (us : List ClosedTerm) × (length us ≡ suc s) × (true ∷ bs ≡ encode_all us ++ rest)
join_trailing s ts bs rest n e =
    let (us, m, q) = join s ts (encode_all ts) n refl in
    (us, m, ap (λ b. true ∷ b) e ∙ ap (λ b. b ++ rest) q)

-- Trailing bits are bits after the codes of `s` terms.
pub check-trailing :
    (bs : List Bool) (s : ℕ)
    → check bs s ≡ err trailing_bits
    → (ts : List ClosedTerm) × (d : Bool) × (rest : List Bool) × (length ts ≡ s)
      × (bs ≡ encode_all ts ++ d ∷ rest)
unfolding check encode_all encode
check-trailing [] zero h = cc
check-trailing [] (suc s) h = cc
check-trailing (b ∷ bs) zero h = ([], b, bs, refl, refl)
check-trailing (true ∷ bs) (suc s) h =
    let (ts, d, rest, n, e) = check-trailing bs (s + 2) h in
    let (us, m, q) = join_trailing s ts bs (d ∷ rest) n e in (us, d, rest, m, q)
check-trailing (false ∷ bs) (suc s) h =
    let (ts, d, rest, n, e) = check-trailing bs s h in
    (one ∷ ts, d, rest, omega arith, ap (λ t. false ∷ t) e)

-- Codes are prefix-free: what follows a code is determined, and so is its term.
pub encode-prefix_free :
    (t u : ClosedTerm) (xs ys : List Bool) → encode t ++ xs ≡ encode u ++ ys → (t ≡ u) × (xs ≡ ys)
unfolding encode
encode-prefix_free one one xs ys h = (refl, cc)
encode-prefix_free one (op l r) xs ys h = cc
encode-prefix_free (op l r) one xs ys h = cc
encode-prefix_free (op l r) (op l' r') xs ys h =
    let tails : (encode l ++ encode r) ++ xs ≡ (encode l' ++ encode r') ++ ys = cc in
    let (e, q) = encode-prefix_free l l' (encode r ++ xs) (encode r' ++ ys) (
      sym (append_assoc (encode l) (encode r) xs)
      ∙ tails
      ∙ append_assoc (encode l') (encode r') ys) in
    let (f, p) = encode-prefix_free r r' xs ys q in (ap₂ op e f, p)

-- Two terms with one code are one term.
pub encode-injective : (t u : ClosedTerm) → encode t ≡ encode u → t ≡ u
encode-injective t u h =
    (encode-prefix_free t u [] [] (append-nil (encode t) ∙ h ∙ sym (append-nil (encode u)))).0

-- The slot count has three outcomes.
pub check_total :
    (bs : List Bool) (s : ℕ)
    → (check bs s ≡ ok tt) ⊎ (check bs s ≡ err trailing_bits) ⊎ (check bs s ≡ err truncated)
unfolding check
check_total [] zero = inl refl
check_total [] (suc s) = inr (inr refl)
check_total (b ∷ bs) zero = inr (inl refl)
check_total (true ∷ bs) (suc s) = check_total bs (s + 2)
check_total (false ∷ bs) (suc s) = check_total bs s
