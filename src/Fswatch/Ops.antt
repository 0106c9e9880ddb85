-- ===== src/Fswatch/Ops.antt =====
-- The operations of internal/fswatch: their labels, how two are merged, and how the bits of
-- fsnotify are read. The values of fsnotify's constants are not in the repository: a parameter.
pub mod Merge
pub mod Normalize
use Prim.Native.Nat.{bit_and}
use googlysync.Prelude.{ℕ, Bool, leb, ◌==◌, if◌then◌else◌, Str, lit}

pub data Op : Type 0 where
  unknown create write remove rename chmod : Op

unfoldable pub op_string : Op → Str
op_string create = lit "CREATE"
op_string write = lit "WRITE"
op_string remove = lit "REMOVE"
op_string rename = lit "RENAME"
op_string chmod = lit "CHMOD"
op_string unknown = lit "UNKNOWN"

-- the map in `mergeOp`
abbrev pub priority : Op → ℕ
priority remove = 5
priority rename = 4
priority create = 3
priority write = 2
priority chmod = 1
priority unknown = 0

unfoldable pub merge_op : Op → Op → Op
merge_op current next = if leb (priority current) (priority next) then next else current

-- fsnotify.Create, Write, Remove, Rename and Chmod
pub record Masks : Type 0 where
  pub create_bit : ℕ
  pub write_bit : ℕ
  pub remove_bit : ℕ
  pub rename_bit : ℕ
  pub chmod_bit : ℕ

-- `op&mask == mask`
abbrev pub has : ℕ → ℕ → Bool
has op mask = bit_and op mask == mask

unfoldable pub normalize_op : Masks → ℕ → Op
normalize_op m op =
    if has op m.create_bit
    then create
    else if has op m.write_bit
    then write
    else if has op m.remove_bit
    then remove
    else if has op m.rename_bit
    then rename
    else if has op m.chmod_bit
    then chmod
    else unknown
