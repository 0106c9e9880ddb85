-- ===== src/Config/Pieces.antt =====
-- What `splitList` of internal/config/config.go does to a list.
use googlysync.Prelude.{
  ℕ, false, ◌≡◌, refl, List, [], ◌∷◌, ◌++◌, ◌==◌, if◌then◌else◌, Str, is_empty, All, Bool-cases,
  inl, inr, append_assoc, append-nil, ap, ◌∙◌, sym,
}
use googlysync.Config.Lists.{comma, emit, split_from, split_list}

-- no byte of the text is a comma
abbrev pub NoComma : Str → Type 0
NoComma s = All (λ c. (c == comma) ≡ false) s

abbrev pub IsPiece : Str → Type 0
IsPiece s = (is_empty s ≡ false) × NoComma s

NoComma-snoc : (s : Str) (c : ℕ) → NoComma s → (c == comma) ≡ false → NoComma (s ++ c ∷ [])
NoComma-snoc [] c h e = (e, tt)
NoComma-snoc (d ∷ s) c h e = (h.0, NoComma-snoc s c h.1 e)

emit-All :
    (piece : Str) (out : List Str) → NoComma piece → All IsPiece out → All IsPiece (emit piece out)
unfolding emit
emit-All [] out p a = a
emit-All (c ∷ piece) out p a = ((refl, p), a)

split_from-All : (piece s : Str) → NoComma piece → All IsPiece (split_from piece s)
unfolding split_from
split_from-All piece [] p = emit-All piece [] p tt
split_from-All piece (c ∷ s) p = elim (Bool-cases (c == comma)) [
  | inl e ↦ rw (e, split_from) (emit-All piece _ p (split_from-All [] s tt))
  | inr e ↦ rw (e, split_from) (split_from-All (piece ++ c ∷ []) s (NoComma-snoc piece c p e))
]

split_from-emit :
    (piece p s : Str)
    → NoComma p
    → split_from piece (p ++ comma ∷ s) ≡ emit (piece ++ p) (split_list s)
unfolding split_from split_list
split_from-emit piece [] s h = ap (λ t. emit t (split_from [] s)) (sym (append-nil _))
split_from-emit piece (c ∷ p) s h =
    rw (h.0, split_from)
      (split_from-emit (piece ++ c ∷ []) p s h.1
        ∙ ap (λ t. emit t (split_from [] s)) (append_assoc piece (c ∷ []) _))

split_from_last : (piece p : Str) → NoComma p → split_from piece p ≡ emit (piece ++ p) []
unfolding split_from
split_from_last piece [] h = ap (λ t. emit t []) (sym (append-nil _))
split_from_last piece (c ∷ p) h =
    rw (h.0, split_from)
      (split_from_last (piece ++ c ∷ []) p h.1
        ∙ ap (λ t. emit t []) (append_assoc piece (c ∷ []) _))

emit_piece : (p : Str) (out : List Str) → is_empty p ≡ false → emit p out ≡ p ∷ out
unfolding emit
emit_piece p out h = rw h

-- the pieces with commas between them
abbrev pub join_commas : List Str → Str
join_commas [] = []
join_commas (p ∷ []) = p
join_commas (p ∷ q ∷ ps) = p ++ comma ∷ join_commas (q ∷ ps)

split_list-join_commas : (ps : List Str) → All IsPiece ps → split_list (join_commas ps) ≡ ps
unfolding split_list split_from emit
split_list-join_commas [] h = refl
split_list-join_commas (p ∷ []) h = split_from_last [] p h.0.1 ∙ emit_piece p [] h.0.0
split_list-join_commas (p ∷ q ∷ ps) h =
    split_from-emit [] p (join_commas (q ∷ ps)) h.0.1
    ∙ emit_piece p (split_list (join_commas (q ∷ ps))) h.0.0
    ∙ ap (◌∷◌ p) (split_list-join_commas (q ∷ ps) h.1)

abbrev pub flat : List Str → Str
flat [] = []
flat (p ∷ ps) = p ++ flat ps

abbrev pub without_commas : Str → Str
without_commas [] = []
without_commas (c ∷ s) = let rest = without_commas s in if c == comma then rest else c ∷ rest

flat-emit : (p : Str) (out : List Str) → flat (emit p out) ≡ p ++ flat out
unfolding emit
flat-emit [] out = refl
flat-emit (c ∷ p) out = refl

flat-split_from : (piece s : Str) → flat (split_from piece s) ≡ piece ++ without_commas s
unfolding split_from
flat-split_from piece [] = flat-emit piece []
flat-split_from piece (c ∷ s) = elim (Bool-cases (c == comma)) [
  | inl e ↦
      rw (e, split_from)
        (flat-emit piece (split_from [] s) ∙ ap (◌++◌ piece) (flat-split_from [] s))
  | inr e ↦ rw (e, split_from) (flat-split_from (piece ++ c ∷ []) s ∙ append_assoc piece (c ∷ []) _)
]

-- The pieces of a list are not empty, have no comma, and together have every other byte of the
-- text in its order; and a list of such pieces, joined by commas, is split into those pieces.
pub split_list-IsPiece :
    (s : Str)
    → All IsPiece (split_list s)
      × (flat (split_list s) ≡ without_commas s)
      × ((ps : List Str) → All IsPiece ps → split_list (join_commas ps) ≡ ps)
unfolding split_list
split_list-IsPiece s = (split_from-All [] s tt, flat-split_from [] s, split_list-join_commas)
