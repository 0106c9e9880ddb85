-- ===== src/Prelude/Sublists.antt =====
-- Lists that leave out elements of another and keep its order.
use Prim.Native.Nat.{ℕ, zero, suc}
use mathlib.Core.Path.{◌≡◌, refl, sym, subst}
use mathlib.Core.Logic.{◌⊎◌, inl, inr}
use mathlib.Core.List.{List, [], ◌∷◌, ◌++◌}
use googlysync.Prelude.Lists.{take}

module _ {ℓ} {A : Type ℓ} where
  -- The first list is the second with some of its elements left out.
  abbrev pub Sub : List A → List A → Type ℓ
  Sub xs [] = xs ≡ []
  Sub xs (y ∷ ys) = Sub xs ys ⊎ ((rest : List A) × (xs ≡ y ∷ rest) × Sub rest ys)

  pub Sub-refl : (xs : List A) → Sub xs xs
  Sub-refl [] = refl
  Sub-refl (x ∷ xs) = inr (xs, refl, Sub-refl xs)

  pub Sub-trans : (xs ys zs : List A) → Sub xs ys → Sub ys zs → Sub xs zs
  Sub-trans xs ys [] h k = subst (Sub xs) k h
  Sub-trans xs ys (z ∷ zs) h (inl k) = inl (Sub-trans xs ys zs h k)
  Sub-trans xs ys (z ∷ zs) h (inr (rest, e, k)) =
      step (subst (Sub xs) e h) (λ us g. Sub-trans us rest zs g k)
    where
      step : Sub xs (z ∷ rest) → ((us : List A) → Sub us rest → Sub us zs) → Sub xs (z ∷ zs)
      step (inl g) f = inl (f xs g)
      step (inr (us, i, g)) f = inr (us, i, f us g)

  pub Sub-append_left : (zs xs ys : List A) → Sub xs ys → Sub (zs ++ xs) (zs ++ ys)
  Sub-append_left [] xs ys h = h
  Sub-append_left (z ∷ zs) xs ys h = inr (zs ++ xs, refl, Sub-append_left zs xs ys h)

  pub Sub-append_right : (xs ys zs : List A) → Sub xs ys → Sub (xs ++ zs) (ys ++ zs)
  Sub-append_right xs [] zs h = subst (λ us. Sub (us ++ zs) zs) (sym h) (Sub-refl zs)
  Sub-append_right xs (y ∷ ys) zs (inl h) = inl (Sub-append_right xs ys zs h)
  Sub-append_right xs (y ∷ ys) zs (inr (rest, e, h)) =
      subst (λ us. Sub (us ++ zs) (y ∷ ys ++ zs)) (sym e)
        (inr (rest ++ zs, refl, Sub-append_right rest ys zs h))

  Sub-nil : (xs : List A) → Sub [] xs
  Sub-nil [] = refl
  Sub-nil (x ∷ xs) = inl (Sub-nil xs)

  pub take-Sub : (n : ℕ) (xs : List A) → Sub (take n xs) xs
  take-Sub zero xs = Sub-nil xs
  take-Sub (suc n) [] = refl
  take-Sub (suc n) (x ∷ xs) = inr (take n xs, refl, take-Sub n xs)

  -- an element left out at the end
  pub Sub-snoc : (xs : List A) (x : A) → Sub xs (xs ++ x ∷ [])
  Sub-snoc [] x = inl refl
  Sub-snoc (y ∷ xs) x = inr (xs, refl, Sub-snoc xs x)
