-- ===== src/Memory.antt =====
-- A database of functions, in place of SQLite: the laws of `Engine` can hold.
mod Rows
mod Tables
mod Pattern
mod Query
mod Records
mod Listings
mod Operations
mod Sessions
mod Migrated
mod Initialized
mod Flow
use googlysync.Storage.Times.{second, epoch}
use googlysync.Prelude.{
  ◌+◌, ◌*◌, [], Time, ◌≡◌, refl, sym, ap, ◌∙◌, Option, none, some, List, ok, ok_injective, map,
}
use googlysync.Storage.Sql.{Value, Column, Row, bind, project, left_after, left_where, Engine}
use googlysync.Memory.Rows.{left_after-HasKey, left_after-none, left_where-HasKey}
use googlysync.Memory.Tables.{
  Store, find_row, find_row-HasKey, run, run_failed, upserted, inserted, revised_found, overwrite,
  overwrite-HasKey, overwrite-none,
}
use googlysync.Memory.Pattern.{like, like_any, like_literal}
use googlysync.Memory.Query.{
  select, select-Listing, query_first, query_first-some, query_first-none,
}

abbrev look : Option Row → List Column → Option (List Value)
look none cs = none
look (some r) cs = some (project cs r)

look_lem :
    (o : Option Row) (cs : List Column)
    → look o cs ≡ elim o [ none ↦ none | some r ↦ some (project cs r) ]
look_lem none cs = refl
look_lem (some r) cs = refl

memory : Engine
unfolding like
memory = record {
  Db = Store;
  find = find_row;
  exec = run;
  query_key = λ t cs k db. ok (look (find_row db t k) cs);
  query_one = λ t cs conds db. ok (query_first t cs conds db);
  query_list = λ q db. ok (map (project q.columns) (select q db));
  like = like;
  find_key = λ db t k h. find_row-HasKey db t k _ h;
  exec_failed = run_failed;
  upsert_done = λ t cs vs sets k db e h u j. upserted t (bind cs vs) sets k db e u j;
  insert_done = λ t cs vs k db e h. inserted t (bind cs vs) k db e h;
  update_done = λ t cs vs k db l h u j.
      revised_found (overwrite t cs (bind cs vs) k) db u j
        (λ o g. overwrite-HasKey t cs (bind cs vs) k u j o l g)
        (overwrite-none t cs (bind cs vs) k u j);
  delete_done = λ t k db e u j.
      revised_found (left_after t k) db u j (λ o g. left_after-HasKey t k u j o g)
        (left_after-none t k u j);
  delete_files_done = λ conds db e u j.
      revised_found (λ u j row. left_where conds u row) db u j
        (λ o g. left_where-HasKey conds u j o g) refl;
  query_key_done = λ t cs k db h. ok_injective (sym h) ∙ look_lem (find_row db t k) cs;
  query_one_some = λ t cs conds db h. query_first-some t cs conds db (ok_injective h);
  query_one_none = λ t cs conds db h. query_first-none t cs conds db (ok_injective h);
  query_list_done = λ q db h. (select q db, ok_injective (sym h), select-Listing q db);
  like_any = like_any;
  like_escaped = λ c p s. refl;
  like_literal = like_literal;
}

abbrev empty : memory.Db
unfolding memory
empty = record { rows = λ t k. none; keys = λ t. [] }

-- some time in 2020, with a part of a second
abbrev today : Time
today = (epoch + 1_600_000_000) * second + 5
