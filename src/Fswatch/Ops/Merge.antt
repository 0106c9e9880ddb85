-- ===== src/Fswatch/Ops/Merge.antt =====
-- `mergeOp` of internal/fswatch/events.go keeps the operation of the higher priority.
use googlysync.Prelude.{max, ◌≤◌, ◌≡◌, ◌⊎◌, arith}
use googlysync.Fswatch.Ops.{Op, unknown, op_string, priority, merge_op}

pub merge_op_assoc : (a b c : Op) → merge_op (merge_op a b) c ≡ merge_op a (merge_op b c)
unfolding merge_op
merge_op_assoc a b c = ground arith

pub merge_op_unknown : (a : Op) → merge_op a unknown ≡ a
unfolding merge_op
merge_op_unknown a = ground arith

pub merge_op_upper :
    (a b : Op) → (priority a ≤ priority (merge_op a b)) × (priority b ≤ priority (merge_op a b))
unfolding merge_op
merge_op_upper a b = (ground arith, ground arith)

pub merge_op_choice : (a b : Op) → (merge_op a b ≡ a) ⊎ (merge_op a b ≡ b)
unfolding merge_op
merge_op_choice a b = ground arith

-- Merging is associative, commutative and idempotent, with the unknown operation as its unit, and
-- the priority of the result is the larger of the two.
pub merge_op_semilattice :
    (a b c : Op)
    → (merge_op (merge_op a b) c ≡ merge_op a (merge_op b c))
      × (merge_op a b ≡ merge_op b a)
      × (merge_op a a ≡ a)
      × (merge_op unknown a ≡ a)
      × (priority (merge_op a b) ≡ max (priority a) (priority b))
unfolding merge_op
merge_op_semilattice a b c =
    (merge_op_assoc a b c, ground arith, ground arith, ground arith, ground arith)

-- Two operations with one label are one operation.
pub op_string_injective : (a b : Op) → op_string a ≡ op_string b → a ≡ b
unfolding op_string
op_string_injective a b h = ground arith
