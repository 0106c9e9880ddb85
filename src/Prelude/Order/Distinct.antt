-- ===== src/Prelude/Order/Distinct.antt =====
-- Lists without repetition: sorted by an order that tells all values apart, such a list is
-- determined by its members.
use mathlib.Core.Path.{◌≡◌, refl, sym, subst, ◌∙◌}
use mathlib.Core.Bool.{true}
use mathlib.Core.Logic.{◌↔◌, inl, inr}
use mathlib.Core.List.{List, [], ◌∷◌, Memᴰ}
use googlysync.Prelude.Tests.{Bool-cases}
use googlysync.Prelude.Order.{
  Order, insert, sort, Below, IsSorted, sort-IsSorted, mem-insert_iff, mem-sort_iff,
}

abbrev pub Distinct {ℓ} : {A : Type ℓ} → List A → Type ℓ
Distinct [] = Unit
Distinct (x ∷ xs) = (¬ Memᴰ x xs) × Distinct xs

module _ {A : Type 0} (o : Order A) where
  open o use {le}

  -- What stands below a list is at most each of its members.
  Below-mem : (x : A) (ys : List A) → Below o x ys → {y : A} → Memᴰ y ys → le x y ≡ true
  Below-mem x [] b m = elim m [ ]
  Below-mem x (z ∷ zs) b (Memᴰ.head e) = subst (λ y. le x y ≡ true) (sym e) b.0
  Below-mem x (z ∷ zs) b (Memᴰ.tail m) = Below-mem x zs b.1 m

  insert-Distinct : (x : A) (ys : List A) → ¬ Memᴰ x ys → Distinct ys → Distinct (insert o x ys)
  unfolding insert
  insert-Distinct x [] n d = (n, d)
  insert-Distinct x (y ∷ ys) n d = elim (Bool-cases (le x y)) [
    | inl e ↦ rw e (n, d)
    | inr e ↦ rw e (
      λ m. apart ((mem-insert_iff o x ys y).0 m),
      insert-Distinct x ys (λ m. n (Memᴰ.tail m)) d.1,
    )
  ]
    where
      apart : ¬ Memᴰ y (x ∷ ys)
      apart (Memᴰ.head e) = n (Memᴰ.head (sym e))
      apart (Memᴰ.tail m) = d.0 m

  pub sort-Distinct : (xs : List A) → Distinct xs → Distinct (sort o xs)
  unfolding sort
  sort-Distinct [] d = d
  sort-Distinct (x ∷ xs) d =
      insert-Distinct x (sort o xs) (λ m. d.0 ((mem-sort_iff o xs x).0 m)) (sort-Distinct xs d.1)

  module _ (antisymm : (x y : A) → le x y ≡ true → le y x ≡ true → x ≡ y) where
    first_least :
        (x y : A) (xs ys : List A)
        → Below o y ys
        → Memᴰ x (y ∷ ys)
        → Below o x xs
        → Memᴰ y (x ∷ xs)
        → x ≡ y
    first_least x y xs ys b (Memᴰ.head e) c n = e
    first_least x y xs ys b (Memᴰ.tail m) c (Memᴰ.head e) = sym e
    first_least x y xs ys b (Memᴰ.tail m) c (Memᴰ.tail n) =
        antisymm x y (Below-mem x xs c n) (Below-mem y ys b m)

    -- a member of the tail is one of the other tail
    others :
        (x y : A) (xs ys : List A)
        → x ≡ y
        → ¬ Memᴰ x xs
        → {z : A} → Memᴰ z xs
        → Memᴰ z (y ∷ ys)
        → Memᴰ z ys
    others x y xs ys e n {z = z} m (Memᴰ.head i) =
        elim (n (subst (λ w. Memᴰ w xs) (i ∙ sym e) m)) [ ]
    others x y xs ys e n m (Memᴰ.tail k) = k

    -- Sorted lists without repetition that have the same members are equal.
    pub sorted_unique :
        (xs ys : List A)
        → IsSorted o xs
        → Distinct xs
        → IsSorted o ys
        → Distinct ys
        → ((z : A) → Memᴰ z xs ↔ Memᴰ z ys)
        → xs ≡ ys
    sorted_unique [] [] s d t e h = refl
    sorted_unique [] (y ∷ ys) s d t e h = elim ((h y).1 (Memᴰ.head refl)) [ ]
    sorted_unique (x ∷ xs) [] s d t e h = elim ((h x).0 (Memᴰ.head refl)) [ ]
    sorted_unique (x ∷ xs) (y ∷ ys) s d t e h =
        let p =
          first_least x y xs ys t.0 ((h x).0 (Memᴰ.head refl)) s.0 ((h y).1 (Memᴰ.head refl)) in
        let q = sorted_unique xs ys s.1 d.1 t.1 e.1 λ z. (
          λ m. others x y xs ys p d.0 m ((h z).0 (Memᴰ.tail m)),
          λ m. others y x ys xs (sym p) e.0 m ((h z).1 (Memᴰ.tail m)),
        ) in
        cc

    -- Sorting lists without repetition gives the same list whenever they have the same members.
    pub sort_unique :
        (xs ys : List A)
        → Distinct xs
        → Distinct ys
        → ((z : A) → Memᴰ z xs ↔ Memᴰ z ys)
        → sort o xs ≡ sort o ys
    sort_unique xs ys d e h =
        sorted_unique (sort o xs) (sort o ys) (sort-IsSorted o xs) (sort-Distinct xs d)
          (sort-IsSorted o ys) (sort-Distinct ys e)
          λ z. (
            λ m. (mem-sort_iff o ys z).1 ((h z).0 ((mem-sort_iff o xs z).0 m)),
            λ m. (mem-sort_iff o xs z).1 ((h z).1 ((mem-sort_iff o ys z).0 m)),
          )
