-- ===== src/Storage/Prefixes/Matching.antt =====
-- What a text matches that was escaped by `escapeLike` of internal/storage/store.go.
use googlysync.Prelude.{
  ℕ, Bool-cases, inl, inr, true, ◌≡◌, refl, sym, ap, ◌∙◌, ◌↔◌, [], ◌∷◌, ◌++◌, map, arith, Str,
}
use googlysync.Storage.Sql.{Engine, is_special, lower, match_head}
use googlysync.Storage.Prefixes.{escape_like, prefix_pattern}

-- A text begins with a prefix, up to the case of ASCII letters.
abbrev pub BeginsWith : Str → Str → Type 0
BeginsWith s prefix = (p : Str) × (rest : Str) × (s ≡ p ++ rest) × (map lower p ≡ map lower prefix)

module _ (sql : Engine) where
  open sql use {like, like_any, like_escaped, like_literal}

  like-prefix_pattern :
      (c : ℕ) (v s : Str)
      → like (prefix_pattern (c ∷ v)) s ≡ match_head c s (like (prefix_pattern v))
  unfolding escape_like
  like-prefix_pattern c v s = elim (Bool-cases (is_special c)) [
    | inl e ↦ rw e (like_escaped c (prefix_pattern v) s)
    | inr e ↦ rw e (like_literal c (prefix_pattern v) s e)
  ]

  like_sound : (prefix s : Str) → like (prefix_pattern prefix) s ≡ true → BeginsWith s prefix
  like_sound [] s h = ([], s, refl, refl)
  like_sound (c ∷ v) [] h = let f = sym (like-prefix_pattern c v []) ∙ h in cc
  like_sound (c ∷ v) (d ∷ s) h =
      let f = sym (like-prefix_pattern c v (d ∷ s)) ∙ h in
      let (p, rest, e, q) = like_sound v s (ground arith) in
      (d ∷ p, rest, ap (λ t. d ∷ t) e, ground arith)

  like_complete :
      (prefix s p rest : Str)
      → s ≡ p ++ rest
      → map lower p ≡ map lower prefix
      → like (prefix_pattern prefix) s ≡ true
  unfolding escape_like
  like_complete [] s p rest e q = like_any s
  like_complete (c ∷ v) s [] rest e q = cc
  like_complete (c ∷ v) s (d ∷ p) rest e q =
      let i = like_complete v (p ++ rest) p rest refl (ground arith) in
      rw (e, like-prefix_pattern c v (d ∷ p ++ rest), i) (ground arith)

  -- The pattern that is made of a prefix matches exactly the texts that begin with it, whatever bytes
  -- it holds, except that upper and lower case letters of ASCII are not told apart.
  pub like-prefix_pattern_iff :
      (prefix s : Str) → (like (prefix_pattern prefix) s ≡ true) ↔ BeginsWith s prefix
  like-prefix_pattern_iff prefix s =
      (like_sound prefix s, λ h. like_complete prefix s h.0 h.1 h.2 h.3)
