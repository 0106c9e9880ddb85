-- ===== src/Prelude/Order.antt =====
-- Sorting by a total order on some key, and the order of texts by their bytes.
pub mod Distinct
use mathlib.Core.Path.{◌≡◌, refl, subst}
use mathlib.Core.Bool.{Bool, true, false, ◌&&◌, ◌||◌}
use mathlib.Core.Logic.{◌↔◌, inl, inr}
use mathlib.Core.List.{List, [], ◌∷◌, Memᴰ}
use native.Mathlib.Omega.{arith}
use googlysync.Prelude.Tests.{ltb, ◌==◌, if◌then◌else◌, Bool-cases}
use googlysync.Prelude.Lists.{All}
use googlysync.Prelude.Texts.{Str}

-- A test for "at most" that is total and transitive; equivalent values may differ.
pub record Order (A : Type 0) : Type 0 where
  pub le : A → A → Bool
  pub total : (a b : A) → le a b ≡ false → le b a ≡ true
  pub trans : (a b c : A) → le a b ≡ true → le b c ≡ true → le a c ≡ true

module _ {A : Type 0} (o : Order A) where
  open o use {le, total, trans}

  unfoldable pub insert : A → List A → List A
  insert x [] = x ∷ []
  insert x (y ∷ ys) = let rest = insert x ys in if le x y then x ∷ y ∷ ys else y ∷ rest

  unfoldable pub sort : List A → List A
  sort [] = []
  sort (x ∷ xs) = insert x (sort xs)

  abbrev pub Below : A → List A → Type 0
  Below x ys = All (λ y. le x y ≡ true) ys

  abbrev pub IsSorted : List A → Type 0
  IsSorted [] = Unit {0}
  IsSorted (x ∷ xs) = Below x xs × IsSorted xs

  Below-trans : (x y : A) (ys : List A) → le x y ≡ true → Below y ys → Below x ys
  Below-trans x y [] h b = tt
  Below-trans x y (z ∷ ys) h b = (trans x y z h b.0, Below-trans x y ys h b.1)

  Below-insert : (x y : A) (ys : List A) → le x y ≡ true → Below x ys → Below x (insert y ys)
  unfolding insert
  Below-insert x y [] h b = (h, tt)
  Below-insert x y (z ∷ ys) h b = elim (Bool-cases (le y z)) [
    | inl e ↦ rw e (h, b)
    | inr e ↦ rw e (b.0, Below-insert x y ys h b.1)
  ]

  insert-IsSorted : (x : A) (ys : List A) → IsSorted ys → IsSorted (insert x ys)
  unfolding insert
  insert-IsSorted x [] s = (tt, tt)
  insert-IsSorted x (y ∷ ys) s = elim (Bool-cases (le x y)) [
    | inl e ↦ rw e ((e, Below-trans x y ys e s.0), s)
    | inr e ↦ rw e (Below-insert y x ys (total x y e) s.0, insert-IsSorted x ys s.1)
  ]

  pub sort-IsSorted : (xs : List A) → IsSorted (sort xs)
  unfolding sort
  sort-IsSorted [] = tt
  sort-IsSorted (x ∷ xs) = insert-IsSorted x (sort xs) (sort-IsSorted xs)

  Mem-insert : (x : A) (ys : List A) {z : A} → Memᴰ z (insert x ys) → Memᴰ z (x ∷ ys)
  unfolding insert
  Mem-insert x [] m = m
  Mem-insert x (y ∷ ys) {z = z} m = elim (Bool-cases (le x y)) [
    | inl e ↦ subst (Memᴰ z) (rw e refl) m
    | inr e ↦ later (Mem-insert x ys) (subst (Memᴰ z) (rw e refl) m)
  ]
    where
      swap : Memᴰ z (x ∷ ys) → Memᴰ z (x ∷ y ∷ ys)
      swap (Memᴰ.head e) = Memᴰ.head e
      swap (Memᴰ.tail n) = Memᴰ.tail (Memᴰ.tail n)

      later :
          (Memᴰ z (insert x ys) → Memᴰ z (x ∷ ys)) → Memᴰ z (y ∷ insert x ys) → Memᴰ z (x ∷ y ∷ ys)
      later f (Memᴰ.head e) = Memᴰ.tail (Memᴰ.head e)
      later f (Memᴰ.tail n) = swap (f n)

  insert-Mem : (x : A) (ys : List A) {z : A} → Memᴰ z (x ∷ ys) → Memᴰ z (insert x ys)
  unfolding insert
  insert-Mem x [] m = m
  insert-Mem x (y ∷ ys) {z = z} m = elim (Bool-cases (le x y)) [
    | inl e ↦ subst (Memᴰ z) (rw e refl) m
    | inr e ↦ subst (Memᴰ z) (rw e refl) (later (insert-Mem x ys) m)
  ]
    where
      later :
          (Memᴰ z (x ∷ ys) → Memᴰ z (insert x ys)) → Memᴰ z (x ∷ y ∷ ys) → Memᴰ z (y ∷ insert x ys)
      later f (Memᴰ.head e) = Memᴰ.tail (f (Memᴰ.head e))
      later f (Memᴰ.tail (Memᴰ.head e)) = Memᴰ.head e
      later f (Memᴰ.tail (Memᴰ.tail n)) = Memᴰ.tail (f (Memᴰ.tail n))

  pub mem-insert_iff : (x : A) (ys : List A) (z : A) → Memᴰ z (insert x ys) ↔ Memᴰ z (x ∷ ys)
  mem-insert_iff x ys z = (Mem-insert x ys, insert-Mem x ys)

  Mem-sort : (xs : List A) {z : A} → Memᴰ z (sort xs) → Memᴰ z xs
  unfolding sort
  Mem-sort [] m = m
  Mem-sort (x ∷ xs) {z = z} m = first (Mem-sort xs) (Mem-insert x (sort xs) m)
    where
      first : (Memᴰ z (sort xs) → Memᴰ z xs) → Memᴰ z (x ∷ sort xs) → Memᴰ z (x ∷ xs)
      first f (Memᴰ.head e) = Memᴰ.head e
      first f (Memᴰ.tail n) = Memᴰ.tail (f n)

  sort-Mem : (xs : List A) {z : A} → Memᴰ z xs → Memᴰ z (sort xs)
  unfolding sort
  sort-Mem [] m = m
  sort-Mem (x ∷ xs) (Memᴰ.head e) = insert-Mem x (sort xs) (Memᴰ.head e)
  sort-Mem (x ∷ xs) (Memᴰ.tail n) = insert-Mem x (sort xs) (Memᴰ.tail (sort-Mem xs n))

  -- Sorting keeps the members.
  pub mem-sort_iff : (xs : List A) (z : A) → Memᴰ z (sort xs) ↔ Memᴰ z xs
  mem-sort_iff xs z = (Mem-sort xs, sort-Mem xs)

-- `strings.Compare(a, b) <= 0`
unfoldable pub str_leb : Str → Str → Bool
str_leb [] t = true
str_leb (b ∷ s) [] = false
str_leb (b ∷ s) (c ∷ t) = let rest = str_leb s t in ltb b c || b == c && rest

pub str_leb_total : (s t : Str) → str_leb s t ≡ false → str_leb t s ≡ true
unfolding str_leb
str_leb_total [] t h = cc
str_leb_total (b ∷ s) [] h = refl
str_leb_total (b ∷ s) (c ∷ t) h = ground (arith, str_leb_total s t)

pub str_leb_trans : (s t u : Str) → str_leb s t ≡ true → str_leb t u ≡ true → str_leb s u ≡ true
unfolding str_leb
str_leb_trans [] t u h k = refl
str_leb_trans (b ∷ s) [] u h k = cc
str_leb_trans (b ∷ s) (c ∷ t) [] h k = cc
str_leb_trans (b ∷ s) (c ∷ t) (d ∷ u) h k = ground (arith, str_leb_trans s t u)

pub str_leb_antisymm : (s t : Str) → str_leb s t ≡ true → str_leb t s ≡ true → s ≡ t
unfolding str_leb
str_leb_antisymm [] [] h k = refl
str_leb_antisymm [] (c ∷ t) h k = cc
str_leb_antisymm (b ∷ s) [] h k = cc
str_leb_antisymm (b ∷ s) (c ∷ t) h k = ground (arith, str_leb_antisymm s t)

abbrev pub str_order : Order Str
str_order = record { le = str_leb; total = str_leb_total; trans = str_leb_trans }
