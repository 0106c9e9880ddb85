-- ===== src/Storage/Opening/Examples.antt =====
-- A database whose second pragma fails.
use googlysync.Prelude.{◌≡◌, refl, none, some, false, true, lit}
use googlysync.Storage.Opening.{Returns, new_storage}

abbrev busy : Returns
busy = record {
  directory_made = none;
  opened = none;
  foreign_keys_set = none;
  busy_timeout_set = some (lit "locked");
  dialect_set = none;
  migrations_applied = none;
  closed = none;
}

busy_test : ((new_storage busy).0.is_open ≡ false) × ((new_storage busy).0.foreign_keys ≡ true)
unfolding new_storage
busy_test = (refl, refl)
