-- ===== src/Auth/Scopes.antt =====
-- `scopeString` of internal/auth/auth.go: the scopes that are not empty, each once, sorted by their
-- bytes and joined by spaces.
pub mod Canonical
use googlysync.Prelude.{List, [], ◌∷◌, ◌++◌, if◌then◌else◌, any, Str, lit, is_empty, str_eq}
use googlysync.Prelude.Order.{sort, str_order}

-- The loop, with the scopes that it has seen.
unfoldable pub unique : List Str → List Str → List Str
unique seen [] = []
unique seen (s ∷ ss) =
    let old = unique seen ss in
    let new = unique (s ∷ seen) ss in
    if is_empty s then old else if any (str_eq s) seen then old else s ∷ new

-- `strings.Join`, by a space
unfoldable pub join : List Str → Str
join [] = []
join (s ∷ []) = s
join (s ∷ t ∷ ts) = s ++ lit " " ++ join (t ∷ ts)

-- `sort.Strings` compares the scopes by their bytes.
unfoldable pub scope_string : List Str → Str
scope_string scopes = join (sort str_order (unique [] scopes))
