-- ===== src/Domain/Transformer/Loops.antt =====
-- The loops of crates/domain/src/transformer.rs and its modules, over operands in their order, and the
-- lists that they go through.
use bml.Prelude.{ℕ, zero, suc, ◌≡◌, refl, ap, List, [], ◌∷◌, ◌++◌, map}
use bml.Float.{Float}
use bml.Domain.Transformer.{Build, done, ◌>>=◌}

-- `start..start + count`
unfoldable pub range : ℕ → ℕ → List ℕ
range start zero = []
range start (suc count) = start ∷ range (suc start) count

unfoldable pub flatten {ℓ} : {A : Type ℓ} → List (List A) → List A
flatten [] = []
flatten (xs ∷ rest) = xs ++ flatten rest

unfoldable pub zip_with {ℓ} : {A B C : Type ℓ} → (A → B → C) → List A → List B → List C
zip_with f [] ys = []
zip_with f (x ∷ xs) [] = []
zip_with f (x ∷ xs) (y ∷ ys) = f x y ∷ zip_with f xs ys

unfoldable pub fold {ℓ} : {A B : Type ℓ} → (B → A → B) → B → List A → B
fold f b [] = b
fold f b (x ∷ xs) = fold f (f b x) xs

pub fold-map {ℓ} :
    {A B C : Type ℓ} (f : C → B → C) (g : A → B) (c : C) (xs : List A)
    → fold f c (map g xs) ≡ fold (λ c x. f c (g x)) c xs
unfolding fold
fold-map f g c [] = refl
fold-map f g c (x ∷ xs) = fold-map f g (f c (g x)) xs

pub zip_with-map {ℓ} :
    {A B C D : Type ℓ} (f : B → C → D) (g : A → B) (xs : List A) (ys : List C)
    → zip_with f (map g xs) ys ≡ zip_with (λ x y. f (g x) y) xs ys
unfolding zip_with
zip_with-map f g [] ys = refl
zip_with-map f g (x ∷ xs) [] = refl
zip_with-map f g (x ∷ xs) (y ∷ ys) = ap (λ rest. f (g x) y ∷ rest) (zip_with-map f g xs ys)

module _ {float : Float} where
  unfoldable pub for_each : {A B : Type 0} → (A → Build float B) → List A → Build float (List B)
  for_each f [] = done []
  for_each f (x ∷ xs) = do y ← f x; ys ← for_each f xs; done (y ∷ ys)

  -- The loop over two lists, to the end of the shorter.
  unfoldable pub for_zip :
      {A B C : Type 0} → (A → B → Build float C) → List A → List B → Build float (List C)
  for_zip f [] ys = done []
  for_zip f (x ∷ xs) [] = done []
  for_zip f (x ∷ xs) (y ∷ ys) = do z ← f x y; zs ← for_zip f xs ys; done (z ∷ zs)

  unfoldable pub fold_nodes : {A B : Type 0} → (B → A → Build float B) → B → List A → Build float B
  fold_nodes f b [] = done b
  fold_nodes f b (x ∷ xs) = do b' ← f b x; fold_nodes f b' xs
