-- ===== src/Config/Lists.antt =====
-- `splitList` of internal/config/config.go, which cuts a list at its commas and drops empty pieces.
use googlysync.Prelude.{ℕ, true, false, List, [], ◌∷◌, ◌++◌, ◌==◌, if◌then◌else◌, Str, is_empty}

abbrev pub comma : ℕ
comma = b','

-- `if i > start { out = append(out, val[start:i]) }`, where `piece` is `val[start:i]`
unfoldable pub emit : Str → List Str → List Str
emit piece out = if is_empty piece then out else piece ∷ out

-- The loop at an index: the piece since `start`, and what is left of the text.
unfoldable pub split_from : Str → Str → List Str
unfolding emit
split_from piece [] = emit piece []
split_from piece (c ∷ s) = elim (c == comma) [
  | true ↦ emit piece (split_from [] s)
  | false ↦ split_from (piece ++ c ∷ []) s
]

unfoldable pub split_list : Str → List Str
unfolding split_from
split_list val = split_from [] val
