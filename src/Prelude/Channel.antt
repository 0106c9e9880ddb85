-- ===== src/Prelude/Channel.antt =====
-- A buffered Go channel as the list of what waits in it, oldest first.
use Prim.Native.Nat.{ℕ, suc, ◌-◌}
use mathlib.Core.Path.{◌≡◌, refl, sym, ap, ◌∙◌}
use mathlib.Core.Logic.{inl, inr}
use mathlib.Core.List.{List, [], ◌∷◌, ◌++◌, append-nil, append_assoc}
use native.Mathlib.Omega.{arith}
use googlysync.Prelude.Tests.{ltb, ltb→lt, ltb→ge, if◌then◌else◌, Bool-cases}
use googlysync.Prelude.Lists.{length, take, take-nil, length-append}

module _ {ℓ} {A : Type ℓ} (cap : ℕ) where
  -- `select { case ch <- x: default: }`: what finds no room is dropped.
  unfoldable pub offer : List A → A → List A
  offer xs x = if ltb (length xs) cap then xs ++ x ∷ [] else xs

  unfoldable pub offer_all : List A → List A → List A
  unfolding offer
  offer_all xs [] = xs
  offer_all xs (e ∷ es) = offer_all (offer xs e) es

  take_none : (n : ℕ) (es : List A) → n ≡ 0 → take n es ≡ []
  take_none n es h = ap (λ k. take k es) h

  take_more : (e : A) (es : List A) (n m : ℕ) → n ≡ suc m → take n (e ∷ es) ≡ e ∷ take m es
  take_more e es n m h = ap (λ k. take k (e ∷ es)) h

  offer-take :
      (xs : List A) (e : A) (es : List A)
      → offer xs e ++ take (cap - length (offer xs e)) es ≡ xs ++ take (cap - length xs) (e ∷ es)
  unfolding offer
  offer-take xs e es = elim (Bool-cases (ltb (length xs) cap)) [
    | inl h ↦
        rw (h, append_assoc xs (e ∷ []) (take (cap - length (xs ++ e ∷ [])) es))
          (ap (◌++◌ xs) (
            sym (
              take_more e es (cap - length xs) (cap - length (xs ++ e ∷ []))
                (omega (arith, ltb→lt (length xs) cap h, length-append xs (e ∷ []))))))
    | inr h ↦
        let none_left : cap - length xs ≡ 0 = omega (arith, ltb→ge (length xs) cap h) in
        rw
          (
            h,
            take_none (cap - length xs) es none_left,
            take_none (cap - length xs) (e ∷ es) none_left,
          )
          refl
  ]

  -- Of what is offered in turn, the channel takes as much as it has room for, from the first on.
  pub offer_all-eq-take : (xs es : List A) → offer_all xs es ≡ xs ++ take (cap - length xs) es
  unfolding offer_all
  offer_all-eq-take xs [] = rw (take-nil (cap - length xs)) (sym (append-nil xs))
  offer_all-eq-take xs (e ∷ es) = offer_all-eq-take (offer xs e) es ∙ offer-take xs e es
