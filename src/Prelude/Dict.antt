-- ===== src/Prelude/Dict.antt =====
-- Go's `map[string]V`. The order of the entries means nothing: a loop over a map is given the order
-- in which it meets the keys.
use mathlib.Core.Path.{◌≡◌}
use mathlib.Core.Option.{Option, none, some}
use mathlib.Core.List.{List, [], ◌∷◌}
use native.Mathlib.Omega.{arith}
use googlysync.Prelude.Tests.{if◌then◌else◌}
use googlysync.Prelude.Texts.{Str, str_eq, str_eq_iff}

abbrev pub Dict {ℓ} : Type ℓ → Type ℓ
Dict V = List (Str × V)

module _ {ℓ} {V : Type ℓ} where
  -- `v, ok := m[k]`
  unfoldable pub get : Dict V → Str → Option V
  get [] k = none
  get ((j, v) ∷ m) k = let rest = get m k in if str_eq j k then some v else rest

  -- `delete(m, k)`
  unfoldable pub delete : Dict V → Str → Dict V
  delete [] k = []
  delete ((j, v) ∷ m) k = let rest = delete m k in if str_eq j k then rest else (j, v) ∷ rest

  -- `m[k] = v`
  unfoldable pub put : Dict V → Str → V → Dict V
  unfolding delete
  put m k v = (k, v) ∷ delete m k

  pub get-delete :
      (m : Dict V) (k j : Str) → get (delete m k) j ≡ (if str_eq k j then none else get m j)
  unfolding get delete
  get-delete [] k j = ground arith
  get-delete ((i, v) ∷ m) k j =
      ground (arith, get-delete m k j, str_eq_iff i k, str_eq_iff i j, str_eq_iff k j)

  pub get-put :
      (m : Dict V) (k j : Str) (v : V)
      → get (put m k v) j ≡ (if str_eq k j then some v else get m j)
  unfolding get put
  get-put m k j v = ground (arith, get-delete m k j)
