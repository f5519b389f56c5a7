-- ===== src/Number/Operations.antt =====
-- crates/domain/src/number/operations.rs: arithmetic expanded into the BML basis. A record `Rules`
-- is its one field, `max_bits`.
pub mod Expansion
pub mod Size
pub mod Budget
pub mod Within
pub mod Meaning
pub mod Correct
use bml.Prelude.{ℕ, Result, ◌>>=◌}
use bml.Number.Encoding.{Bml, BuildError, one, op_with_limit, default_max_bits}

pub record Rules : Type 0 where
  pub max_bits : ℕ

abbrev pub default : Rules
default = record { max_bits = default_max_bits }

abbrev pub Built : Type 0
Built = Result BuildError Bml

unfoldable pub op : Rules → Bml → Bml → Built
op self left right = op_with_limit left right self.max_bits

unfoldable pub exp2 : Rules → Bml → Built
exp2 self x = op self x one

unfoldable pub log2 : Rules → Bml → Built
log2 self x = do inner ← op self one x; reciprocal ← exp2 self inner; op self one reciprocal

unfoldable pub sub_positive : Rules → Bml → Bml → Built
sub_positive self x y = do l ← log2 self x; e ← exp2 self y; op self l e

unfoldable pub add : Rules → Bml → Bml → Built
add self x y = do
  p ← exp2 self x
  q ← op self x p
  difference ← sub_positive self q y
  sub_positive self p difference

unfoldable pub neg : Rules → Bml → Built
neg self x = do p ← exp2 self x; q ← op self x p; sub_positive self q p

unfoldable pub sub : Rules → Bml → Bml → Built
sub self x y = do p ← exp2 self x; q ← op self x p; sum ← add self q y; sub_positive self p sum

unfoldable pub mul : Rules → Bml → Bml → Built
mul self x y = do lx ← log2 self x; ly ← log2 self y; sum ← add self lx ly; exp2 self sum

unfoldable pub div : Rules → Bml → Bml → Built
div self x y = do
  lx ← log2 self x
  ly ← log2 self y
  difference ← sub self lx ly
  exp2 self difference

unfoldable pub recip : Rules → Bml → Built
recip self x = do lx ← log2 self x; negated ← neg self lx; exp2 self negated

unfoldable pub scale : Rules → Bml → Bml → Built
scale self x y = do
  p ← exp2 self x
  q ← op self x p
  py ← mul self p y
  qy ← mul self q y
  sub_positive self py qy

unfoldable pub pow : Rules → Bml → Bml → Built
pow self x y = do lx ← log2 self x; scaled ← scale self lx y; exp2 self scaled

unfoldable pub sqrt : Rules → Bml → Built
sqrt self x = do
  minus_one ← neg self one
  half ← exp2 self minus_one
  lx ← log2 self x
  scaled ← scale self lx half
  exp2 self scaled
