-- ===== src/Storage/Records/Listed.antt =====
-- From the rows that a query lists to the records that the loops of internal/storage/store.go scan.
use googlysync.Prelude.{
  ℕ, true, ◌≡◌, refl, sym, ap, ◌∙◌, List, [], ◌∷◌, map, arith, length, All, Memᴰ, Result, ok,
  Option, some, ◌⊎◌, inl, inr, first_step, ok_injective, ◌>>=◌, subst,
}
use googlysync.Prelude.Order.{Order, IsSorted}
use googlysync.Storage.Sql.{Value, Column, Row, project, Select, Listing, Engine}
use googlysync.Storage.Records.{scan_rows}

module _ {A : Type 0} (scan : List Value → Result A) (cs : List Column) where
  -- Each record is what its row is scanned as.
  abbrev pub Scanned : List Row → List A → Type 0
  Scanned [] [] = Unit {0}
  Scanned [] (a ∷ as') = ⊥
  Scanned (r ∷ rows) [] = ⊥
  Scanned (r ∷ rows) (a ∷ as') = (scan (project cs r) ≡ ok a) × Scanned rows as'

  scan_rows-Scanned :
      (rows : List Row) (as' : List A)
      → scan_rows scan (map (project cs) rows) ≡ ok as'
      → Scanned rows as'
  unfolding scan_rows
  scan_rows-Scanned [] [] h = tt
  scan_rows-Scanned [] (a ∷ as') h = cc
  scan_rows-Scanned (r ∷ rows) as' h =
      let (a, e, g) = first_step (scan (project cs r)) h in
      let (rest, f, k) = first_step (scan_rows scan (map (project cs) rows)) g in
      subst (Scanned (r ∷ rows)) (ok_injective k) (e, scan_rows-Scanned rows rest f)

  pub length-Scanned :
      (rows : List Row) (as' : List A) → Scanned rows as' → length as' ≡ length rows
  length-Scanned [] [] s = refl
  length-Scanned [] (a ∷ as') s = absurd s
  length-Scanned (r ∷ rows) [] s = absurd s
  length-Scanned (r ∷ rows) (a ∷ as') s = omega (arith, length-Scanned rows as' s.1)

  pub All-Scanned :
      {P : Row → Type 0} {Q : A → Type 0} (rows : List Row) (as' : List A)
      → ((r : Row) (a : A) → scan (project cs r) ≡ ok a → P r → Q a)
      → Scanned rows as'
      → All P rows
      → All Q as'
  All-Scanned [] [] f s h = tt
  All-Scanned [] (a ∷ as') f s h = absurd s
  All-Scanned (r ∷ rows) [] f s h = absurd s
  All-Scanned (r ∷ rows) (a ∷ as') f s h = (f r a s.0 h.0, All-Scanned rows as' f s.1 h.1)

  pub Mem-Scanned :
      (rows : List Row) (as' : List A) (r : Row)
      → Scanned rows as'
      → Memᴰ r rows
      → (a : A) × (scan (project cs r) ≡ ok a) × Memᴰ a as'
  Mem-Scanned [] as' r s m = elim m [ ]
  Mem-Scanned (q ∷ rows) [] r s m = absurd s
  Mem-Scanned (q ∷ rows) (a ∷ as') r s (Memᴰ.head e) =
      (a, ap (λ x. scan (project cs x)) e ∙ s.0, Memᴰ.head refl)
  Mem-Scanned (q ∷ rows) (a ∷ as') r s (Memᴰ.tail n) =
      let (b, e, m) = Mem-Scanned rows as' r s.1 n in (b, e, Memᴰ.tail m)

  pub IsSorted-Scanned :
      (o : Order Row) (p : Order A) (rows : List Row) (as' : List A)
      → ((r t : Row) (a b : A)
          → scan (project cs r) ≡ ok a
          → scan (project cs t) ≡ ok b
          → o.le r t ≡ true
          → p.le a b ≡ true)
      → Scanned rows as'
      → IsSorted o rows
      → IsSorted p as'
  IsSorted-Scanned o p [] [] f s h = tt
  IsSorted-Scanned o p [] (a ∷ as') f s h = absurd s
  IsSorted-Scanned o p (r ∷ rows) [] f s h = absurd s
  IsSorted-Scanned o p (r ∷ rows) (a ∷ as') f s h = (
    All-Scanned rows as' (λ t b e l. f r t a b s.0 e l) s.1 h.0,
    IsSorted-Scanned o p rows as' f s.1 h.1,
  )

  -- The rows behind a list of records that a query has given.
  pub query_list-Scanned :
      (sql : Engine) (q : Select) (db : sql.Db) (as' : List A)
      → q.columns ≡ cs
      → (do rows ← sql.query_list q db; scan_rows scan rows) ≡ ok as'
      → (rows : List Row) × Scanned rows as' × Listing (sql.find db q.table) sql.like q rows
  query_list-Scanned sql q db as' own h =
      let (out, e, g) = first_step (sql.query_list q db) h in
      let (rows, f, l) = sql.query_list_done q db e in
      (rows, scan_rows-Scanned rows as' ((rw (sym own, sym f) refl) ∙ g), l)

  -- A record whose row a query may find is listed, unless as many as the limit are.
  pub listed_row :
      (limit : Option ℕ) (rows : List Row) (as' : List A) (r : Row) (a : A)
      → Scanned rows as'
      → scan (project cs r) ≡ ok a
      → Memᴰ r rows ⊎ (limit ≡ some (length rows))
      → Memᴰ a as' ⊎ (limit ≡ some (length as'))
  listed_row limit rows as' r a s e (inl m) =
      let (b, f, n) = Mem-Scanned rows as' r s m in
      inl (subst (λ x. Memᴰ x as') (ok_injective (sym f ∙ e)) n)
  listed_row limit rows as' r a s e (inr g) = inr (g ∙ ap some (sym (length-Scanned rows as' s)))
