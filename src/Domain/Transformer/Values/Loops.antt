-- ===== src/Domain/Transformer/Values/Loops.antt =====
-- The loops of crates/domain/src/transformer.rs over operands that stand for values.
use bml.Prelude.{
  ℕ, zero, suc, ◌+◌, ◌*◌, ◌≤◌, ◌<◌, ◌≡◌, refl, ap, List, [], ◌∷◌, ◌++◌, map, arith, length, take,
  get_or,
}
use bml.Float.{Float}
use bml.Domain.Soa.{NodeSoa}
use bml.Domain.Transformer.{Build}
use bml.Domain.Transformer.Loops.{range, flatten, zip_with, fold, for_each, for_zip, fold_nodes}
use bml.Domain.Transformer.Values.{Makes, done-Makes, bind-Makes}

-- Two lists of one length, related position by position.
pub data Aligned {A V : Type 0} (R : A → V → Type 0) : List A → List V → Type 0 where
  aligned_nil : Aligned R [] []
  aligned_cons :
      {x : A} {v : V} {xs : List A} {vs : List V}
      → R x v
      → Aligned R xs vs
      → Aligned R (x ∷ xs) (v ∷ vs)

module _ {A V : Type 0} {R : A → V → Type 0} where
  pub Aligned-length : {xs : List A} {vs : List V} → Aligned R xs vs → length xs ≡ length vs
  Aligned-length aligned_nil = refl
  Aligned-length (aligned_cons r rest) = ap suc (Aligned-length rest)

  -- An index in the range of the lists gives a related pair, whatever the defaults.
  pub Aligned-get :
      {xs : List A} {vs : List V} (i : ℕ) (x : A) (v : V)
      → Aligned R xs vs
      → i < length xs
      → R (get_or xs i x) (get_or vs i v)
  Aligned-get i x v aligned_nil lt = absurd (omega (arith, lt))
  Aligned-get zero x v (aligned_cons r rest) lt = r
  Aligned-get (suc i) x v (aligned_cons r rest) lt = Aligned-get i x v rest (omega (arith, lt))

  pub Aligned-append :
      {xs ys : List A} {vs ws : List V}
      → Aligned R xs vs
      → Aligned R ys ws
      → Aligned R (xs ++ ys) (vs ++ ws)
  Aligned-append aligned_nil s = s
  Aligned-append (aligned_cons r rest) s = aligned_cons r (Aligned-append rest s)

  pub Aligned-flatten :
      {xss : List (List A)} {vss : List (List V)}
      → Aligned (Aligned R) xss vss
      → Aligned R (flatten xss) (flatten vss)
  unfolding flatten
  Aligned-flatten aligned_nil = aligned_nil
  Aligned-flatten (aligned_cons r rest) = Aligned-append r (Aligned-flatten rest)

module _ {A V : Type 0} {R : A → V → Type 0} where
  pub Aligned-take :
      (n : ℕ) {xs : List A} {vs : List V} → Aligned R xs vs → Aligned R (take n xs) (take n vs)
  Aligned-take zero h = aligned_nil
  Aligned-take (suc n) aligned_nil = aligned_nil
  Aligned-take (suc n) (aligned_cons r rest) = aligned_cons r (Aligned-take n rest)

-- The indices of a loop, each with its bound.
pub Aligned-range :
    (start count limit : ℕ)
    → start + count ≤ limit
    → Aligned (λ i j. (i ≡ j) × (i < limit)) (range start count) (range start count)
unfolding range
Aligned-range start zero limit le = aligned_nil
Aligned-range start (suc count) limit le =
    aligned_cons (refl, omega arith) (Aligned-range (suc start) count limit (omega arith))

-- A cell of a row-major table is below its size.
pub cell_lt : (row rows k inner : ℕ) → row < rows → k < inner → row * inner + k < rows * inner
cell_lt row zero k inner lt le = absurd (omega (arith, lt))
cell_lt zero (suc rows) k inner lt le = omega (arith, le)
cell_lt (suc row) (suc rows) k inner lt le =
    omega (arith, cell_lt row rows k inner (omega (arith, lt)) le)

module _ (float : Float) (inputs : List (float.F64)) (end : NodeSoa float) where
  pub for_each-Makes :
      {A B V W : Type 0} {R : A → V → Type 0} {S : B → W → Type 0} (f : A → Build float B)
      (g : V → W) {xs : List A} {vs : List V}
      → Aligned R xs vs
      → ((x : A) (v : V) → R x v → Makes float inputs end (f x) (λ y. S y (g v)))
      → Makes float inputs end (for_each f xs) (λ ys. Aligned S ys (map g vs))
  unfolding for_each
  for_each-Makes f g aligned_nil make = done-Makes float inputs end aligned_nil
  for_each-Makes f g (aligned_cons {x} {v} r rest) make =
      bind-Makes float inputs end (make x v r) λ _ e.
        bind-Makes float inputs end (for_each-Makes f g rest make)
          λ _ es. done-Makes float inputs end (aligned_cons e es)

  pub for_zip-Makes :
      {A B C V W U : Type 0} {R : A → V → Type 0} {S : B → W → Type 0} {T : C → U → Type 0}
      (f : A → B → Build float C) (g : V → W → U) {xs : List A} {vs : List V} {ys : List B}
      {ws : List W}
      → Aligned R xs vs
      → Aligned S ys ws
      → ((x : A) (v : V) (y : B) (w : W)
          → R x v
          → S y w
          → Makes float inputs end (f x y) (λ z. T z (g v w)))
      → Makes float inputs end (for_zip f xs ys) (λ zs. Aligned T zs (zip_with g vs ws))
  unfolding for_zip zip_with
  for_zip-Makes f g aligned_nil ss make = done-Makes float inputs end aligned_nil
  for_zip-Makes f g (aligned_cons r rest) aligned_nil make = done-Makes float inputs end aligned_nil
  for_zip-Makes f g (aligned_cons {x} {v} r rest) (aligned_cons {x = y} {v = w} s others) make =
      bind-Makes float inputs end (make x v y w r s) λ _ e.
        bind-Makes float inputs end (for_zip-Makes f g rest others make)
          λ _ es. done-Makes float inputs end (aligned_cons e es)

  pub fold_nodes-Makes :
      {A B V W : Type 0} {R : A → V → Type 0} {S : B → W → Type 0} (f : B → A → Build float B)
      (g : W → V → W) (b : B) (w : W) {xs : List A} {vs : List V}
      → S b w
      → Aligned R xs vs
      → ((b : B) (w : W) (x : A) (v : V)
          → S b w
          → R x v
          → Makes float inputs end (f b x) (λ y. S y (g w v)))
      → Makes float inputs end (fold_nodes f b xs) (λ y. S y (fold g w vs))
  unfolding fold_nodes fold
  fold_nodes-Makes f g b w s aligned_nil make = done-Makes float inputs end s
  fold_nodes-Makes f g b w s (aligned_cons {x} {v} r rest) make =
      bind-Makes float inputs end (make b w x v s r)
        λ b' e. fold_nodes-Makes f g b' (g w v) e rest make
