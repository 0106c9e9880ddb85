-- ===== src/Status/Ring.antt =====
-- The ring of internal/status/status.go keeps the newest events.
use googlysync.Prelude.{
  ℕ, suc, ◌-◌, min, ◌≡◌, sym, ap, ◌∙◌, List, [], ◌∷◌, ◌++◌, arith, ltb, length, drop, drop-append,
  drop_none, last, last-last, length-append, Bool-cases, inl, inr, ltb→ge,
}
use googlysync.Status.{Event, trim}

pub trim-eq-last : (m : ℕ) (xs : List Event) → trim m xs ≡ last m xs
unfolding trim last
trim-eq-last m xs = elim (Bool-cases (ltb m (length xs))) [
  | inl more ↦ rw more
  | inr fits ↦
      rw fits (sym (drop_none (length xs - m) xs (omega (arith, ltb→ge m (length xs) fits))))
]

last-snoc : (w : ℕ) (h : List Event) (e : Event) → last w h ++ e ∷ [] ≡ last (suc w) (h ++ e ∷ [])
unfolding last
last-snoc w h e =
    sym (drop-append (length h - w) h (e ∷ []) (omega arith))
    ∙ ap (λ k. drop k (h ++ e ∷ [])) (omega (arith, length-append h (e ∷ [])))

pub trim-last : (m w : ℕ) (h : List Event) → trim m (last w h) ≡ last (min m w) h
trim-last m w h = trim-eq-last m (last w h) ∙ last-last m w h

pub trim-snoc :
    (m w : ℕ) (h : List Event) (e : Event)
    → trim m (last w h ++ e ∷ []) ≡ last (min m (suc w)) (h ++ e ∷ [])
trim-snoc m w h e = rw last-snoc (trim-last m (suc w) (h ++ e ∷ []))
