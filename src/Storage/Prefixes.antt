-- ===== src/Storage/Prefixes.antt =====
-- The listings by prefix of internal/storage/store.go: `escapeLike`, the pattern and the limit.
pub mod Matching
pub mod Listed
use googlysync.Prelude.{
  ℕ, zero, suc, Bool, ◌≡◌, Option, none, some, List, [], ◌∷◌, ◌++◌, if◌then◌else◌, Str, lit,
  is_empty, ℤ, pos, negsuc, Result, ok, err, ◌>>=◌, Time, or_now,
}
use googlysync.Storage.Sql.{
  Value, text, integer, Column, Table, Select, Engine, upsert, insert, update_key, delete_key,
  delete_files, backslash, is_special,
}

-- `strings.NewReplacer(…).Replace`, whose old strings are single bytes
unfoldable pub escape_like : Str → Str
escape_like [] = []
escape_like (c ∷ value) =
    let rest = escape_like value in if is_special c then backslash ∷ c ∷ rest else c ∷ rest

-- `if limit <= 0 { limit = 500 }`
abbrev pub limit_or_default : ℤ → ℕ
limit_or_default (pos zero) = 500
limit_or_default (pos (suc n)) = suc n
limit_or_default (negsuc n) = 500

abbrev pub prefix_pattern : Str → Str
prefix_pattern prefix = escape_like prefix ++ b'%' ∷ []

abbrev pub under_prefix : Table → List Column → Str → Str → ℤ → Select
under_prefix table columns account_id prefix limit = record {
  table = table;
  columns = columns;
  conditions = (Column.account_id, account_id) ∷ [];
  pattern = some (prefix_pattern prefix);
  order = Column.path;
  limit = some (limit_or_default limit);
}
