-- ===== src/Storage/Migrations/Examples.antt =====
-- The schema of internal/storage/migrations, and what going back leaves of it.
use googlysync.Prelude.{◌≡◌, refl, some, ◌++◌, str_eq}
use googlysync.Prelude.Dict.{get, put, delete}
use googlysync.Storage.Sql.{files}
use googlysync.Storage.Schema.{TableSchema, apply, apply_all, no_schema}
use googlysync.Storage.Migrations.{up_init, down_init, up_sync, down_sync, migrated_schema}
use googlysync.Storage.Migrations.Matches.{name_of, Fits, migrated_schema-Fits}

-- The second migration is taken back, and then the first.
down_test :
    (apply_all (up_init ++ up_sync ++ down_sync) no_schema ≡ apply_all up_init no_schema)
    × (apply_all (up_init ++ down_init) no_schema ≡ no_schema)
unfolding apply get put delete str_eq
down_test = (refl, refl)

migrated_schema-Fits_example :
    (s : TableSchema) × (get migrated_schema.tables (name_of files) ≡ some s) × Fits files s
migrated_schema-Fits_example = migrated_schema-Fits files
