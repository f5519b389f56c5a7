-- ===== src/Number/Stream.antt =====
-- crates/domain/src/number/stream.rs: the depth check of the stream decoder, and the exports of a
-- term. An iterator of bits is the list of what it yields.
pub mod Depth
use bml.Prelude.{
  ℕ, zero, suc, ◌+◌, ◌-◌, ◌*◌, ◌/◌, ◌%◌, ◌^◌, ◌≤◌, ◌<◌, min, max, ◌≡◌, ◌≢◌, refl, sym, ap, ap₂, ◌∙◌,
  subst, Bool, true, false, not, ◌&&◌, ◌||◌, cond, Option, none, some, List, [], ◌∷◌, ◌++◌, map,
  append_assoc, append-nil, ◌⊎◌, inl, inr, ◌↔◌, arith, tests, ltb, leb, ltb→lt, lt→ltb, ltb→le,
  ltb-eq-false, leb→le, ◌==◌, ==_iff, ==_refl, if◌then◌else◌, Bool-cases, Option-cases, length,
  get_elem?, get_or, set, take, drop, replicate, length-append, length-set, length-replicate,
  get_or-set_self, get_or-set_ne, get_or-replicate, get_or_of_ge, length-drop, drop-length_append,
  take-length_append, get_elem?-append_left, get_elem?-append_end, length-map, Result, ok, err,
  ok_or, map_err, ◌>>=◌, ◌>>◌, Result-cases, >>-eq-ok,
}
use bml.Number.Encoding.{Bml, bit_len, to_u64, checked_add, default_max_bits}

pub record StreamLimits : Type 0 where
  pub max_bits : ℕ
  pub max_terms : ℕ
  pub max_depth : ℕ

abbrev pub default_limits : StreamLimits
default_limits = record { max_bits = default_max_bits; max_terms = 65_536; max_depth = 4096 }

pub data StreamError : Type 0 where
  header : StreamError
  inconsistent_length : StreamError
  padding : StreamError
  limit : StreamError
  word_width : StreamError

unfoldable pub try_to_u64 : Bml → Result StreamError ℕ
try_to_u64 b = ok_or (to_u64 b) word_width

-- The two words stand apart, so their `|` is a sum.
unfoldable pub try_to_u128 : Bml → Result StreamError ℕ
try_to_u128 b =
    if ltb 2 (length b.words)
    then err word_width
    else ok (get_or b.words 0 0 + get_or b.words 1 0 * 2 ^ 64)

unfoldable pub operator_count : Bml → ℕ
operator_count b = (bit_len b - 1) / 2

-- The loop of `check_depth`, with the pending depths, the depth and the count of bits read.
unfoldable pub check_depth_from : List Bool → List ℕ → ℕ → ℕ → ℕ → Result StreamError ℕ
check_depth_from [] pending depth i max_depth = err inconsistent_length
check_depth_from (true ∷ bits) pending depth i max_depth = do
  deeper ← ok_or (checked_add depth 1) limit
  let rest = check_depth_from bits (deeper ∷ pending) deeper (i + 1) max_depth
  if ltb max_depth deeper then err limit else rest
check_depth_from (false ∷ bits) (next ∷ pending) depth i max_depth =
    check_depth_from bits pending next (i + 1) max_depth
check_depth_from (false ∷ bits) [] depth i max_depth = ok (i + 1)

unfoldable pub check_depth : List Bool → ℕ → Result StreamError ℕ
unfolding check_depth_from
check_depth bits max_depth = check_depth_from bits [] 0 0 max_depth
