-- ===== src/Storage/Pending/Queued.antt =====
-- The pending operations that `ListPendingOps` of internal/storage/store.go finds after the writes.
use googlysync.Prelude.{
  true, inl, inr, ◌≡◌, ◌⊎◌, refl, ap, ◌∙◌, none, some, List, [], ◌∷◌, length, Memᴰ, Str,
  str_eq_refl, ok, ok_injective, ℤ, Time,
}
use googlysync.Storage.Sql.{
  Value, text, integer, Column, Row, pending_ops, bind, project, holds, merge_row, Engine,
}
use googlysync.Storage.Records.Kept.{guarded_passed, written_self}
use googlysync.Storage.Records.Listed.{query_list-Scanned, listed_row}
use googlysync.Storage.Times.{unix_time, from_unix, kept_time, from_unix-unix_time}
use googlysync.Storage.Prefixes.{limit_or_default}
use googlysync.Storage.Pending.{
  PendingOp, op_columns, op_args, scan_op, stamp_op, progress_columns, in_state, pending_in,
  add_pending_op, list_pending_ops, update_pending_op,
}

-- The operation as it reads back.
abbrev pub kept_op : PendingOp → PendingOp
kept_op op = record op {
  created_at = kept_time op.created_at;
  updated_at = kept_time op.updated_at;
}

scan_op-op_args : (op : PendingOp) → scan_op (op_args op) ≡ ok (kept_op op)
unfolding scan_op
scan_op-op_args op = simp from_unix-unix_time

-- whether a row is one of an account and, if one is asked for, in a state
holds-in_state :
    (r : Row) (account state : Str)
    → r Column.account_id ≡ text account
    → r Column.state ≡ text state
    → (asked : Str) → (asked ≡ []) ⊎ (asked ≡ state)
    → holds ((Column.account_id, account) ∷ in_state asked) r ≡ true
holds-in_state r account state a s asked (inl e) = rw (e, holds, a, str_eq_refl account) refl
holds-in_state r account [] a s asked (inr e) = rw (e, holds, a, str_eq_refl account) refl
holds-in_state r account (c ∷ state) a s asked (inr e) =
    rw (e, holds, a, s, str_eq_refl account, str_eq_refl (c ∷ state)) refl

-- the row of an operation, as far as an update leaves it alone
op_values :
    (v₁ v₂ v₃ v₄ v₅ v₆ v₇ v₈ v₉ v : Value) (op : PendingOp)
    → scan_op (v₁ ∷ v₂ ∷ v₃ ∷ v₄ ∷ v₅ ∷ v₆ ∷ v₇ ∷ v₈ ∷ v₉ ∷ v ∷ []) ≡ ok op
    → (v₁ ≡ text op.id)
      × (v₂ ≡ text op.account_id)
      × (v₃ ≡ text op.path)
      × (v₄ ≡ text op.drive_id)
      × (v₅ ≡ text op.op_type)
      × ((c : ℤ) × (v₉ ≡ integer c) × (from_unix c ≡ op.created_at))
unfolding scan_op
op_values (text a) (text b) (text c) (text d) (text e) (text f) (integer g) (text h) (integer i)
      (integer j) op q =
    let p = ok_injective q in
    (
      ap (λ x. text x.id) p,
      ap (λ x. text x.account_id) p,
      ap (λ x. text x.path) p,
      ap (λ x. text x.drive_id) p,
      ap (λ x. text x.op_type) p,
      (i, refl, ap (λ x. x.created_at) p),
    )
op_values v₁ v₂ v₃ v₄ v₅ v₆ v₇ v₈ v₉ v op q = cc

abbrev progress : Str → ℤ → Str → Time → List Value
progress state retry_count last_error now =
    text state ∷ integer retry_count ∷ text last_error ∷ integer (unix_time now) ∷ []

-- The operation as it reads back after `UpdatePendingOp`.
abbrev pub progressed : PendingOp → Str → ℤ → Str → Time → PendingOp
progressed op state retry_count last_error now = record op {
  state = state;
  retry_count = retry_count;
  last_error = last_error;
  updated_at = kept_time now;
}

scan_progressed :
    (r : Row) (op : PendingOp) (state : Str) (n : ℤ) (e : Str) (now : Time)
    → scan_op (project op_columns r) ≡ ok op
    → scan_op (
        project op_columns
          (merge_row progress_columns (some r) (bind progress_columns (progress state n e now))))
      ≡ ok (progressed op state n e now)
unfolding scan_op
scan_progressed r op state n e now h =
    let (a, b, c, d, f, (i, g, q)) = op_values _ _ _ _ _ _ _ _ _ _ op h in
    rw (a, b, c, d, f, g, q, from_unix-unix_time now) refl

pub op_account :
    (r : Row) (op : PendingOp)
    → scan_op (project op_columns r) ≡ ok op
    → r Column.account_id ≡ text op.account_id
op_account r op e = (op_values _ _ _ _ _ _ _ _ _ _ op e).1

module _ (sql : Engine) where
  open sql use {Db, find, exec, insert_done, update_done}

  listed_op :
      (account state : Str) (limit : ℤ) (db : Db) (ops : List PendingOp) (k : Str) (r : Row)
      (op : PendingOp)
      → find db pending_ops k ≡ some r
      → scan_op (project op_columns r) ≡ ok op
      → holds ((Column.account_id, account) ∷ in_state state) r ≡ true
      → list_pending_ops sql account state limit db ≡ ok ops
      → Memᴰ op ops ⊎ (length ops ≡ limit_or_default limit)
  unfolding list_pending_ops
  listed_op account state limit db ops k r op g e h l =
      let (rows, s, found) =
        query_list-Scanned scan_op op_columns sql (pending_in account state limit) db ops refl l in
      limited (listed_row scan_op op_columns _ rows ops r op s e (found.complete k r g h refl))
    where
      limited :
          Memᴰ op ops ⊎ (some (limit_or_default limit) ≡ some (length ops))
          → Memᴰ op ops ⊎ (length ops ≡ limit_or_default limit)
      limited (inl m) = inl m
      limited (inr q) = inr (cc)

  -- An operation that `AddPendingOp` has added is listed for its account, with its times cut to
  -- seconds: in its state, which is "queued" where it was given none, and where no state is asked
  -- for, unless as many operations as the limit are listed.
  pub list_pending_ops-add_pending_op :
      (op : PendingOp) (now : Time) (db : Db) (asked : Str) (limit : ℤ) (ops : List PendingOp)
      → (add_pending_op sql (some op) now db).1 ≡ none
      → (asked ≡ []) ⊎ (asked ≡ (stamp_op op now).state)
      → list_pending_ops sql op.account_id asked limit (add_pending_op sql (some op) now db).0
        ≡ ok ops
      → Memᴰ (kept_op (stamp_op op now)) ops ⊎ (length ops ≡ limit_or_default limit)
  unfolding add_pending_op
  list_pending_ops-add_pending_op op now db asked limit ops done state l =
      let args = op_args (stamp_op op now) in
      let (e, d) = guarded_passed _ db done in
      let (new, after) = insert_done pending_ops op_columns args op.id db refl d in
      let g =
        ap (λ w. find w.0 pending_ops op.id) e
        ∙ after pending_ops op.id
        ∙ written_self pending_ops op.id _ _ in
      listed_op op.account_id asked limit _ ops op.id (bind op_columns args)
        (kept_op (stamp_op op now)) g (scan_op-op_args (stamp_op op now))
        (holds-in_state (bind op_columns args) op.account_id (stamp_op op now).state refl refl asked
          state)
        l

  -- An operation that `UpdatePendingOp` has updated is listed with the state, retry count and error
  -- it was given, in that state, and where no state is asked for, unless as many operations as the
  -- limit are listed.
  pub list_pending_ops-update_pending_op :
      (op : PendingOp) (r : Row) (id state last_error : Str) (retry_count : ℤ) (now : Time)
      (db : Db) (asked : Str) (limit : ℤ) (ops : List PendingOp)
      → find db pending_ops id ≡ some r
      → scan_op (project op_columns r) ≡ ok op
      → (update_pending_op sql id state retry_count last_error now db).1 ≡ none
      → (asked ≡ []) ⊎ (asked ≡ state)
      → list_pending_ops sql op.account_id asked limit
          (update_pending_op sql id state retry_count last_error now db).0
        ≡ ok ops
      → Memᴰ (progressed op state retry_count last_error now) ops
        ⊎ (length ops ≡ limit_or_default limit)
  unfolding update_pending_op
  list_pending_ops-update_pending_op op r id state last_error n now db asked limit ops f s done
        which l =
      let vs = progress state n last_error now in
      let new = bind progress_columns vs in
      let g =
        update_done pending_ops progress_columns vs id db refl done pending_ops id
        ∙ (rw (str_eq_refl id, f) refl) in
      let own = (op_values _ _ _ _ _ _ _ _ _ _ op s).1 in
      listed_op op.account_id asked limit _ ops id (merge_row progress_columns (some r) new)
        (progressed op state n last_error now) g (scan_progressed r op state n last_error now s)
        (holds-in_state (merge_row progress_columns (some r) new) op.account_id state own refl asked
          which)
        l
