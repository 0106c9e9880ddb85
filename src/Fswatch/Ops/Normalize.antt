-- ===== src/Fswatch/Ops/Normalize.antt =====
-- `normalizeOp` of internal/fswatch/fswatch.go against the order in which `mergeOp` of
-- internal/fswatch/events.go ranks operations.
use googlysync.Prelude.{ℕ, Bool, false, ◌&&◌, ◌||◌, ◌≡◌, ◌↔◌, arith, if◌then◌else◌}
use googlysync.Fswatch.Ops.{
  Op, unknown, create, write, remove, rename, chmod, merge_op, Masks, has, normalize_op,
}

-- the operation, if its bit is set, merged with another
abbrev merge_flag : Bool → Op → Op → Op
merge_flag b op rest = if b then merge_op op rest else rest

-- What one gets for the flags of an event one by one, merged as the events of one path are.
abbrev pub merged : Masks → ℕ → Op
merged m op = merge_flag (has op m.create_bit) create (
    merge_flag (has op m.write_bit) write (
      merge_flag (has op m.remove_bit) remove
        (merge_flag (has op m.rename_bit) rename (merge_flag (has op m.chmod_bit) chmod unknown))))

-- A combined event is read as its flags merged one by one, except exactly where it both creates
-- or writes and removes or renames: then the creation or the write is reported, though merging
-- ranks the removal and the renaming above them.
pub normalize-eq-merged_iff :
    (m : Masks) (op : ℕ)
    → (normalize_op m op ≡ merged m op) ↔ (
        ((has op m.create_bit || has op m.write_bit)
          && (has op m.remove_bit || has op m.rename_bit))
        ≡ false)
unfolding normalize_op merge_op
normalize-eq-merged_iff m op =
    table (has op m.create_bit) (has op m.write_bit) (has op m.remove_bit) (has op m.rename_bit)
      (has op m.chmod_bit)
  where
    table :
        (c w r n h : Bool)
        → ((if c
              then create
              else if w
              then write
              else if r
              then remove
              else if n
              then rename
              else if h
              then chmod
              else unknown)
            ≡ merge_flag c create (
                merge_flag w write
                  (merge_flag r remove (merge_flag n rename (merge_flag h chmod unknown)))))
          ↔ (((c || w) && (r || n)) ≡ false)
    table c w r n h = (ground arith, ground arith)
