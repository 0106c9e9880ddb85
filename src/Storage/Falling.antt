-- ===== src/Storage/Falling.antt =====
-- What falls with an account: `DeleteAccount` of internal/storage/store.go over the tables of
-- internal/storage/migrations.
use googlysync.Prelude.{
  ◌≡◌, ◌↔◌, refl, false, sym, ◌∙◌, Option, Option-cases, none, some, inl, inr, if◌then◌else◌, Str,
  str_eq, ok,
}
use googlysync.Storage.Cascade.{is_gone, Holds, Holds-delete_account}
use googlysync.Storage.Folders.{Folder, folder_columns, scan_folder}
use googlysync.Storage.Folders.Found.{folder_account}
use googlysync.Storage.Pending.{PendingOp, op_columns, scan_op}
use googlysync.Storage.Pending.Queued.{op_account}
use googlysync.Storage.Sql.{Engine, files, folders, pending_ops, accounts, delete_key}
use googlysync.Storage.Accounts.{Account, get_account, delete_account}
use googlysync.Storage.Accounts.Roundtrip.{get_account-delete_account}
use googlysync.Storage.Tokens.{TokenRef, get_token_ref}
use googlysync.Storage.Tokens.Kept.{get_token_ref-delete_account}
use googlysync.Storage.SyncStates.{SyncState, get_sync_state}
use googlysync.Storage.SyncStates.Kept.{get_sync_state-delete_account}
use googlysync.Storage.Files.{FileRecord}
use googlysync.Storage.Files.Found.{IsStored}

-- what a read finds after a deletion that returned an error or none
abbrev pub left_of {ℓ} : {A : Type ℓ} → Option Str → Str → Str → Option A → Option A
left_of outcome id j before = elim outcome [
  | none ↦ if str_eq id j then none else before
  | some e ↦ before
]

module _ (sql : Engine) where
  open sql use {Db, find, delete_done, exec_failed}

  find_files-delete_account :
      (id : Str) (db : Db) (k : Str) → find (delete_account sql id db).0 files k ≡ find db files k
  unfolding delete_account
  find_files-delete_account id db k = elim (Option-cases (delete_account sql id db).1) [
    | inl e ↦ delete_done accounts id db e files k
    | inr (x, e) ↦ exec_failed (delete_key accounts id) db e files k
  ]

  -- a stored folder, and a stored pending operation
  abbrev pub HasFolder : Db → Folder → Type 0
  HasFolder db g = Holds scan_folder folder_columns folders sql db g

  abbrev pub HasOp : Db → PendingOp → Type 0
  HasOp db op = Holds scan_op op_columns pending_ops sql db op

  -- `DeleteAccount`, if it succeeds, deletes the account, its token reference, its sync metadata, its
  -- folders and its pending operations, and leaves those of every other account as they were; if it
  -- fails, it leaves all of them. In either case every file stays stored, also the deleted account's.
  -- The accounts, token references and sync metadata are those that lookups return, before and after;
  -- this is about lookups that do not fail.
  pub delete_account_falls :
      (id j : Str) (db : Db) (a a' : Option Account) (t t' : Option TokenRef)
      (s s' : Option SyncState) (f : FileRecord) (g : Folder) (op : PendingOp)
      → get_account sql j db ≡ ok a
      → get_account sql j (delete_account sql id db).0 ≡ ok a'
      → get_token_ref sql j db ≡ ok t
      → get_token_ref sql j (delete_account sql id db).0 ≡ ok t'
      → get_sync_state sql j db ≡ ok s
      → get_sync_state sql j (delete_account sql id db).0 ≡ ok s'
      → (a' ≡ left_of (delete_account sql id db).1 id j a)
        × (t' ≡ left_of (delete_account sql id db).1 id j t)
        × (s' ≡ left_of (delete_account sql id db).1 id j s)
        × (HasFolder (delete_account sql id db).0 g
            ↔ (HasFolder db g × (is_gone (delete_account sql id db).1 id g.account_id ≡ false)))
        × (HasOp (delete_account sql id db).0 op
            ↔ (HasOp db op × (is_gone (delete_account sql id db).1 id op.account_id ≡ false)))
        × (IsStored sql (delete_account sql id db).0 f ↔ IsStored sql db f)
  delete_account_falls id j db a a' t t' s s' f g op ga ga' gt gt' gs gs' = (
    get_account-delete_account sql id db j a a' ga ga',
    get_token_ref-delete_account sql id db j t t' gt gt',
    get_sync_state-delete_account sql id db j s s' gs gs',
    Holds-delete_account scan_folder folder_columns (λ x. x.account_id) folders refl refl
        folder_account sql id db g,
    Holds-delete_account scan_op op_columns (λ x. x.account_id) pending_ops refl refl op_account sql
        id db op,
    (
      λ (k, r, p, e). (k, r, sym (find_files-delete_account id db k) ∙ p, e),
      λ (k, r, p, e). (k, r, find_files-delete_account id db k ∙ p, e),
    ),
  )
