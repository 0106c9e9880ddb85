-- ===== src/Memory/Pattern.antt =====
-- LIKE with an escape character, as a function.
use googlysync.Prelude.{
  Bool, ℕ, arith, true, false, ◌||◌, ◌≡◌, refl, [], ◌∷◌, if◌then◌else◌, Str, is_empty, ◌==◌,
}
use googlysync.Storage.Sql.{backslash, is_special, match_head}

abbrev anywhere : (Str → Bool) → Str → Bool
anywhere more [] = more []
anywhere more (d ∷ s) = let rest = anywhere more s in more (d ∷ s) || rest

abbrev after_one : (Str → Bool) → Str → Bool
after_one more [] = false
after_one more (d ∷ s) = more s

abbrev ordinary : ℕ → (Str → Bool) → Str → Bool
ordinary c more s =
    if c == b'%'
    then anywhere more s
    else if c == b'_'
    then after_one more s
    else match_head c s more

unfoldable pub like : Str → Str → Bool
like [] s = is_empty s
like (c ∷ []) s = ordinary c is_empty s
like (c ∷ d ∷ p) s = if c == backslash then match_head d s (like p) else ordinary c (like (d ∷ p)) s

anywhere_end : (s : Str) → anywhere is_empty s ≡ true
anywhere_end [] = refl
anywhere_end (d ∷ s) = anywhere_end s

pub like_any : (s : Str) → like (b'%' ∷ []) s ≡ true
unfolding like
like_any s = anywhere_end s

pub like_literal :
    (c : ℕ) (p s : Str) → is_special c ≡ false → like (c ∷ p) s ≡ match_head c s (like p)
unfolding like
like_literal c [] s h = ground arith
like_literal c (d ∷ p) s h = ground arith
