-- ===== src/Storage/Prefixes/Listed.antt =====
-- What a listing by prefix of internal/storage/store.go returns.
use googlysync.Prelude.{
  ℕ, true, ◌&&◌, ◌≤◌, ◌≡◌, refl, sym, ◌∙◌, ◌⊎◌, inl, inr, some, List, [], ◌∷◌, arith, length, All,
  Memᴰ, Str, str_eq, str_eq_iff, str_eq_refl, ℤ, Result, ok, ◌>>=◌,
}
use googlysync.Prelude.Order.{Order, IsSorted, str_leb, str_leb_total, str_leb_trans}
use googlysync.Storage.Sql.{
  Value, text, Column, Table, Row, project, holds, fits, by_column, value_leb, Engine,
}
use googlysync.Storage.Records.{scan_rows}
use googlysync.Storage.Records.Listed.{
  query_list-Scanned, length-Scanned, All-Scanned, listed_row, IsSorted-Scanned,
}
use googlysync.Storage.Prefixes.{under_prefix, limit_or_default, prefix_pattern}
use googlysync.Storage.Prefixes.Matching.{BeginsWith, like-prefix_pattern_iff}

-- a kind of record with an account and a path, and how it is scanned
pub record Located (A : Type 0) : Type 0 where
  pub table : Table
  pub columns : List Column
  pub scan : List Value → Result A
  pub account : A → Str
  pub path : A → Str
  pub scanned :
      (r : Row) (a : A)
      → scan (project columns r) ≡ ok a
      → (r Column.account_id ≡ text (account a)) × (r Column.path ≡ text (path a))

module _ {A : Type 0} (l : Located A) where
  abbrev pub by_path : Order A
  by_path = record {
    le = λ a b. str_leb (l.path a) (l.path b);
    total = λ a b h. str_leb_total (l.path a) (l.path b) h;
    trans = λ a b c h k. str_leb_trans (l.path a) (l.path b) (l.path c) h k;
  }

  module _ (sql : Engine) where
    open sql use {Db, find, query_list, like}

    -- The records listed are stored, belong to the account and begin with the prefix; they are in
    -- the order of their paths and at most as many as the limit; and a record that is stored and
    -- meets this is listed, unless as many as the limit are.
    pub record IsListing (account prefix : Str) (limit : ℤ) (db : Db) (as' : List A) : Type 0 where
      pub within :
          All
            (λ a.
              ((k : Str) × (r : Row) × (find db l.table k ≡ some r)
                × (l.scan (project l.columns r) ≡ ok a))
              × (l.account a ≡ account)
              × BeginsWith (l.path a) prefix)
            as'
      pub sorted : IsSorted by_path as'
      pub bounded : length as' ≤ limit_or_default limit
      pub complete :
          (k : Str) (r : Row) (a : A)
          → find db l.table k ≡ some r
          → l.scan (project l.columns r) ≡ ok a
          → l.account a ≡ account
          → BeginsWith (l.path a) prefix
          → Memᴰ a as' ⊎ (length as' ≡ limit_or_default limit)

    within_prefix :
        (account prefix : Str) (limit : ℤ) (db : Db) (r : Row) (a : A)
        → l.scan (project l.columns r) ≡ ok a
        → ((k : Str) × (find db l.table k ≡ some r))
          × (holds ((Column.account_id, account) ∷ []) r ≡ true)
          × (fits like (some (prefix_pattern prefix)) r ≡ true)
        → ((k : Str) × (r : Row) × (find db l.table k ≡ some r)
            × (l.scan (project l.columns r) ≡ ok a))
          × (l.account a ≡ account)
          × BeginsWith (l.path a) prefix
    within_prefix account prefix limit db r a e ((k, g), h, f) =
        let (i, p) = l.scanned r a e in
        let h' : str_eq (l.account a) account && true ≡ true = sym (rw i refl) ∙ h in
        let f' : like (prefix_pattern prefix) (l.path a) ≡ true = sym (rw (fits, p) refl) ∙ f in
        (
          (k, r, g, e),
          (str_eq_iff (l.account a) account).0 (ground arith),
          (like-prefix_pattern_iff sql prefix (l.path a)).0 f',
        )

    sorted_paths :
        (r t : Row) (a b : A)
        → l.scan (project l.columns r) ≡ ok a
        → l.scan (project l.columns t) ≡ ok b
        → (by_column Column.path).le r t ≡ true
        → by_path.le a b ≡ true
    unfolding value_leb
    sorted_paths r t a b e f h =
        let (i, p) = l.scanned r a e in
        let (j, q) = l.scanned t b f in
        let g : value_leb (text (l.path a)) (text (l.path b)) ≡ true = sym (rw (p, q) refl) ∙ h in g

    limited :
        (n : ℕ) (as' : List A) (a : A)
        → Memᴰ a as' ⊎ (some n ≡ some (length as'))
        → Memᴰ a as' ⊎ (length as' ≡ n)
    limited n as' a (inl m) = inl m
    limited n as' a (inr e) = inr (cc)

    pub under_prefix-IsListing :
        (account prefix : Str) (limit : ℤ) (db : Db) (as' : List A)
        → (do
          rows ← query_list (under_prefix l.table l.columns account prefix limit) db
          scan_rows l.scan rows)
          ≡ ok as'
        → IsListing account prefix limit db as'
    under_prefix-IsListing account prefix limit db as' h =
        let q = under_prefix l.table l.columns account prefix limit in
        let (rows, s, found) = query_list-Scanned l.scan l.columns sql q db as' refl h in
        record {
          within =
              All-Scanned l.scan l.columns rows as' (within_prefix account prefix limit db) s
                found.sound;
          sorted =
              IsSorted-Scanned l.scan l.columns (by_column Column.path) by_path rows as'
                sorted_paths s found.sorted;
          bounded = omega (arith, length-Scanned l.scan l.columns rows as' s, found.bounded _ refl);
          complete = λ k r a g e i b.
              let (c, p) = l.scanned r a e in
              let j : holds ((Column.account_id, account) ∷ []) r ≡ true =
                rw (holds, c, i, str_eq_refl account) refl in
              let m : fits like (some (prefix_pattern prefix)) r ≡ true =
                rw (fits, p) ((like-prefix_pattern_iff sql prefix (l.path a)).1 b) in
              limited _ as' a
                (listed_row l.scan l.columns _ rows as' r a s e (found.complete k r g j m));
        }
