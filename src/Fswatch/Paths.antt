-- ===== src/Fswatch/Paths.antt =====
-- The parts of a path that internal/fswatch reads, and `shouldIgnore`.
pub mod Ignored
use googlysync.Prelude.{
  ℕ, ◌-◌, Bool, true, false, ◌&&◌, ◌||◌, not, List, [], ◌∷◌, ◌++◌, ◌==◌, leb, if◌then◌else◌, length,
  drop, any, Str, lit, is_empty, str_eq, Option,
}
use googlysync.Config.{Config}

-- `filepath.Match`, where it reports a match, and `filepath.Rel`, `none` where it fails
pub record Filepath : Type 0 where
  pub glob : Str → Str → Bool
  pub rel : Str → Str → Option Str

abbrev pub slash : ℕ
slash = b'/'

-- a path without the separators at its end
unfoldable pub strip : Str → Str
strip [] = []
strip (c ∷ s) = let rest = strip s in if (c == slash) && is_empty rest then [] else c ∷ rest

abbrev pub has_slash : Str → Bool
has_slash s = any (λ c. c == slash) s

-- what stands behind the last separator
unfoldable pub last_element : Str → Str
last_element [] = []
last_element (c ∷ s) =
    let rest = last_element s in if has_slash s then rest else if c == slash then s else c ∷ s

-- `filepath.Base` on Unix
unfoldable pub base : Str → Str
unfolding strip last_element
base path =
    if is_empty path
    then lit "."
    else (let b = last_element (strip path) in if is_empty b then lit "/" else b)

-- `len(b) >= len(suf) && b[len(b)-len(suf):] == suf`
unfoldable pub has_suffix : Str → Str → Bool
has_suffix b suf = leb (length suf) (length b) && str_eq (drop (length b - length suf) b) suf

abbrev pub suffixes : List Str
suffixes = lit ".swp" ∷ lit ".tmp" ∷ lit "~" ∷ lit ".DS_Store" ∷ []

-- `p != "" && path == p`
abbrev pub is_own : Str → Str → Bool
is_own p path = not (is_empty p) && str_eq path p

unfoldable pub should_ignore : Filepath → Config → Str → Bool
should_ignore fp cfg path =
    let b = base path in
    if str_eq b (lit ".") || str_eq b (lit "..")
    then true
    else if is_own cfg.log_file_path path
    then true
    else if is_own cfg.database_path path
    then true
    else if is_own cfg.socket_path path
    then true
    else if any (λ pat. fp.glob pat b) cfg.ignore_patterns
    then true
    else if any (has_suffix b) suffixes
    then true
    else false

-- `pathRel`
unfoldable pub path_rel : Filepath → Str → Str → Str
path_rel fp path root =
    if is_empty root
    then path
    else elim (fp.rel root path) [ Option.none ↦ path | Option.some rel ↦ rel ]
