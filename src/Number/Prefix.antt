-- ===== src/Number/Prefix.antt =====
-- The prefix code of closed terms on lists of bits, most significant first: the abstract form of
-- what crates/domain/src/number/encoding.rs stores. The proofs stand in the child modules.
pub mod Check
use bml.Prelude.{
  ℕ, zero, suc, ◌+◌, Bool, true, false, List, [], ◌∷◌, ◌++◌, if◌then◌else◌, Result, ok, err,
}
use bml.Symbolic.Term.{ClosedTerm, one, op}
use bml.Number.Encoding.{EncodingError, truncated, trailing_bits}

-- `0` is the terminal and `1` an ordered application.
unfoldable pub encode : ClosedTerm → List Bool
encode one = false ∷ []
encode (op l r) = true ∷ (encode l ++ encode r)

unfoldable pub encode_all : List ClosedTerm → List Bool
encode_all [] = []
encode_all (t ∷ ts) = encode t ++ encode_all ts

-- The open slots after reading some bits, as `validate` counts them.
unfoldable pub check : List Bool → ℕ → Result EncodingError (Unit {0})
check [] zero = ok tt
check [] (suc s) = err truncated
check (b ∷ bs) zero = err trailing_bits
check (b ∷ bs) (suc s) = check bs (if b then s + 2 else s)
