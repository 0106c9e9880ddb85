-- ===== src/Storage/Opening.antt =====
-- internal/storage/storage.go: `NewStorage`, `migrate` and `Close`. What the calls of the driver, of
-- the operating system and of goose return is given.
pub mod Opened
mod Examples
use googlysync.Prelude.{ℕ, Bool, true, false, Option, none, some, Str, Result, ok, err}

-- `*sql.DB`: the handle, its one connection, and what has been run on it
pub record Handle : Type 0 where
  pub is_open : Bool
  pub max_open : ℕ
  pub max_idle : ℕ
  pub foreign_keys : Bool
  pub busy_timeout : ℕ
  pub migrated : Bool

-- what each call returns: nil, or an error
pub record Returns : Type 0 where
  pub directory_made : Option Str
  pub opened : Option Str
  pub foreign_keys_set : Option Str
  pub busy_timeout_set : Option Str
  pub dialect_set : Option Str
  pub migrations_applied : Option Str
  pub closed : Option Str

abbrev pub no_handle : Handle
no_handle = record {
  is_open = false;
  max_open = 0;
  max_idle = 0;
  foreign_keys = false;
  busy_timeout = 0;
  migrated = false;
}

-- `sql.Open` and the limits on connections
abbrev pub opened_handle : Handle
opened_handle = record no_handle { is_open = true; max_open = 1; max_idle = 1 }

-- `db.Close()`
abbrev pub closed_handle : Handle → Handle
closed_handle h = record h { is_open = false }

module _ (returns : Returns) where
  unfoldable pub migrate : Handle → Handle × Option Str
  migrate h = elim returns.dialect_set [
    | some e ↦ (h, some e)
    | none ↦ elim returns.migrations_applied [
      | some e ↦ (h, some e)
      | none ↦ (record h { migrated = true }, none)
    ]
  ]

  -- a migration that fails closes the handle
  abbrev pub migrated_or_closed : Handle × Option Str → Handle × Result (Unit {0})
  migrated_or_closed (h, some e) = (closed_handle h, err e)
  migrated_or_closed (h, none) = (h, ok tt)

  -- `NewStorage`: the handle that it leaves, and whether it returns a storage
  unfoldable pub new_storage : Handle × Result (Unit {0})
  unfolding migrate
  new_storage = elim returns.directory_made [
    | some e ↦ (no_handle, err e)
    | none ↦ elim returns.opened [
      | some e ↦ (no_handle, err e)
      | none ↦ elim returns.foreign_keys_set [
        | some e ↦ (closed_handle opened_handle, err e)
        | none ↦ elim returns.busy_timeout_set [
          | some e ↦ (closed_handle (record opened_handle { foreign_keys = true }), err e)
          | none ↦
              migrated_or_closed
                (migrate (record opened_handle { foreign_keys = true; busy_timeout = 5000 }))
        ]
      ]
    ]
  ]

  -- `Close`, of a storage that may be missing
  unfoldable pub close_storage : Option Handle → Option Handle × Option Str
  close_storage none = (none, none)
  close_storage (some h) = (some (closed_handle h), returns.closed)
