-- ===== src/Config/Ints.antt =====
-- What internal/config/config.go uses of `strconv.Atoi`: an optional sign, then decimal digits, in
-- the range of a 64-bit `int`. `none` stands for an error.
use googlysync.Prelude.{
  ◌≡◌, refl, ℕ, ◌+◌, ◌-◌, ◌*◌, ◌^◌, Bool, true, false, ◌&&◌, Option, none, some, [], ◌∷◌, leb, ltb,
  ◌==◌, if◌then◌else◌, ℤ, pos, negsuc, Str,
}

-- the value of the digits after those that make up `n`
unfoldable pub digits : ℕ → Str → Option ℕ
digits n [] = some n
digits n (c ∷ s) =
    let rest = digits (n * 10 + (c - b'0')) s in if leb b'0' c && leb c b'9' then rest else none

abbrev some_digits : Str → Option ℕ
some_digits [] = none
some_digits (c ∷ s) = digits 0 (c ∷ s)

abbrev in_range : Bool → Option ℕ → Option ℤ
in_range negative none = none
in_range true (some n) =
    if ltb (2 ^ 63) n then none else if n == 0 then some (pos 0) else some (negsuc (n - 1))
in_range false (some n) = if ltb n (2 ^ 63) then some (pos n) else none

unfoldable pub atoi : Str → Option ℤ
unfolding digits
atoi [] = none
atoi (c ∷ s) =
    if c == b'-'
    then in_range true (some_digits s)
    else if c == b'+'
    then in_range false (some_digits s)
    else in_range false (some_digits (c ∷ s))

pub atoi-nil : atoi [] ≡ none
unfolding atoi
atoi-nil = refl
