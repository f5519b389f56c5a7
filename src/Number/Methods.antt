-- ===== src/Number/Methods.antt =====
-- The methods of `Bml` in crates/domain/src/number/operations.rs: the rules under the default limit.
use bml.Number.Encoding.{Bml}
use bml.Number.Operations.{Built, default}
use bml.Number.Operations as Rule

unfoldable pub exp2 : Bml → Built
exp2 self = Rule.exp2 default self

unfoldable pub log2 : Bml → Built
log2 self = Rule.log2 default self

unfoldable pub add : Bml → Bml → Built
add self rhs = Rule.add default self rhs

unfoldable pub sub : Bml → Bml → Built
sub self rhs = Rule.sub default self rhs

unfoldable pub neg : Bml → Built
neg self = Rule.neg default self

unfoldable pub mul : Bml → Bml → Built
mul self rhs = Rule.mul default self rhs

unfoldable pub div : Bml → Bml → Built
div self rhs = Rule.div default self rhs

unfoldable pub recip : Bml → Built
recip self = Rule.recip default self

unfoldable pub pow : Bml → Bml → Built
pow self rhs = Rule.pow default self rhs

unfoldable pub sqrt : Bml → Built
sqrt self = Rule.sqrt default self
