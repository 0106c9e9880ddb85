-- ===== src/Memory/Query.antt =====
-- Queries on the store: the rows that meet the conditions, sorted and cut.
use googlysync.Prelude.{
  Bool, Bool-cases, inl, inr, ap, ◌∙◌, ℕ, zero, suc, arith, subst, str_eq_iff, true, false, ◌&&◌,
  ◌≡◌, refl, sym, Option, none, some, List, [], ◌∷◌, if◌then◌else◌, Str, str_eq, any_iff, Memᴰ,
  length, take, length-take, ◌≤◌, ◌⊎◌, All,
}
use googlysync.Prelude.Order.{Order, sort, IsSorted, Below, sort-IsSorted, mem-sort_iff}
use googlysync.Storage.Sql.{
  Value, Column, Row, Table, project, Select, Listing, holds, fits, by_column,
}
use googlysync.Memory.Tables.{Store, known, find_row}
use googlysync.Memory.Pattern.{like}

pub All-of_Mem {ℓ κ} :
    {A : Type ℓ} {P : A → Type κ} (xs : List A) → ((x : A) → Memᴰ x xs → P x) → All P xs
All-of_Mem [] f = tt
All-of_Mem (x ∷ xs) f = (f x (Memᴰ.head refl), All-of_Mem xs (λ y m. f y (Memᴰ.tail m)))

module _ {A : Type 0} where
  Mem-take : (n : ℕ) (xs : List A) (x : A) → Memᴰ x (take n xs) → Memᴰ x xs
  Mem-take zero xs x m = elim m [ ]
  Mem-take (suc n) [] x m = elim m [ ]
  Mem-take (suc n) (y ∷ ys) x (Memᴰ.head e) = Memᴰ.head e
  Mem-take (suc n) (y ∷ ys) x (Memᴰ.tail m) = Memᴰ.tail (Mem-take n ys x m)

  take-Mem :
      (n : ℕ) (xs : List A) (x : A) → Memᴰ x xs → Memᴰ x (take n xs) ⊎ (n ≡ length (take n xs))
  take-Mem zero xs x m = inr refl
  take-Mem (suc n) [] x m = elim m [ ]
  take-Mem (suc n) (y ∷ ys) x (Memᴰ.head e) = inl (Memᴰ.head e)
  take-Mem (suc n) (y ∷ ys) x (Memᴰ.tail m) = elim (take-Mem n ys x m) [
    | inl k ↦ inl (Memᴰ.tail k)
    | inr e ↦ inr (ap suc e)
  ]

  Below-take : (o : Order A) (x : A) (n : ℕ) (ys : List A) → Below o x ys → Below o x (take n ys)
  Below-take o x zero ys b = tt
  Below-take o x (suc n) [] b = tt
  Below-take o x (suc n) (y ∷ ys) b = (b.0, Below-take o x n ys b.1)

  IsSorted-take : (o : Order A) (n : ℕ) (xs : List A) → IsSorted o xs → IsSorted o (take n xs)
  IsSorted-take o zero xs s = tt
  IsSorted-take o (suc n) [] s = tt
  IsSorted-take o (suc n) (x ∷ xs) s = (Below-take o x n xs s.0, IsSorted-take o n xs s.1)

-- whether a row may be returned
abbrev meets : List (Column × Str) → Option Str → Row → Bool
meets conds pattern r = holds conds r && fits like pattern r

abbrev pick : List (Column × Str) → Option Str → Option Row → List Row → List Row
pick conds pattern none rest = rest
pick conds pattern (some r) rest = if meets conds pattern r then r ∷ rest else rest

unfoldable pub picked : Store → Table → List (Column × Str) → Option Str → List Str → List Row
picked db t conds pattern [] = []
picked db t conds pattern (k ∷ ks) =
    pick conds pattern (find_row db t k) (picked db t conds pattern ks)

abbrev pub cut : Option ℕ → List Row → List Row
cut none rows = rows
cut (some n) rows = take n rows

unfoldable pub select : Select → Store → List Row
unfolding picked
select q db =
    cut q.limit
      (sort (by_column q.order) (picked db q.table q.conditions q.pattern (db.keys q.table)))

abbrev first_row : List Column → List Row → Option (List Value)
first_row cs [] = none
first_row cs (r ∷ rows) = some (project cs r)

unfoldable pub query_first : Table → List Column → List (Column × Str) → Store → Option (List Value)
unfolding picked
query_first t cs conds db = first_row cs (picked db t conds none (db.keys t))

module _ (db : Store) (t : Table) (conds : List (Column × Str)) (pattern : Option Str) where
  abbrev Met : Row → Type 0
  Met r =
      ((k : Str) × (find_row db t k ≡ some r))
      × (holds conds r ≡ true)
      × (fits like pattern r ≡ true)

  Met-of_pick :
      (k : Str) (o : Option Row) (rest : List Row) (r : Row)
      → find_row db t k ≡ o
      → (Memᴰ r rest → Met r)
      → Memᴰ r (pick conds pattern o rest)
      → Met r
  Met-of_pick k none rest r e f m = f m
  Met-of_pick k (some s) rest r e f m = elim (Bool-cases (meets conds pattern s)) [
    | inl h ↦ here h (subst (Memᴰ r) (rw h refl) m)
    | inr h ↦ f (subst (Memᴰ r) (rw h refl) m)
  ]
    where
      here : meets conds pattern s ≡ true → Memᴰ r (s ∷ rest) → Met r
      here h (Memᴰ.head p) = subst Met (sym p) ((k, e), ground arith, ground arith)
      here h (Memᴰ.tail n) = f n

  picked-Met : (ks : List Str) (r : Row) → Memᴰ r (picked db t conds pattern ks) → Met r
  unfolding picked
  picked-Met [] r m = elim m [ ]
  picked-Met (k ∷ ks) r m = Met-of_pick k (find_row db t k) _ r refl (picked-Met ks r) m

  pick_met :
      (s : Row) (rest : List Row)
      → meets conds pattern s ≡ true
      → pick conds pattern (some s) rest ≡ s ∷ rest
  pick_met s rest h = rw h refl

  pick_keeps :
      (o : Option Row) (rest : List Row) (r : Row)
      → Memᴰ r rest
      → Memᴰ r (pick conds pattern o rest)
  pick_keeps none rest r m = m
  pick_keeps (some s) rest r m = elim (Bool-cases (meets conds pattern s)) [
    | inl h ↦ subst (Memᴰ r) (sym (pick_met s rest h)) (Memᴰ.tail m)
    | inr h ↦ subst (Memᴰ r) (rw h refl) m
  ]

  Mem-picked :
      (ks : List Str) (k : Str) (r : Row)
      → Memᴰ k ks
      → find_row db t k ≡ some r
      → meets conds pattern r ≡ true
      → Memᴰ r (picked db t conds pattern ks)
  unfolding picked
  Mem-picked [] k r m e h = elim m [ ]
  Mem-picked (j ∷ ks) k r (Memᴰ.head p) e h =
      let f : find_row db t j ≡ some r = ap (find_row db t) (sym p) ∙ e in
      subst (Memᴰ r) (sym (ap (λ o. pick conds pattern o (picked db t conds pattern ks)) f))
        (subst (Memᴰ r) (sym (pick_met r (picked db t conds pattern ks) h)) (Memᴰ.head refl))
  Mem-picked (j ∷ ks) k r (Memᴰ.tail m) e h =
      pick_keeps (find_row db t j) _ r (Mem-picked ks k r m e h)

  known_of_found : (k : Str) (r : Row) → find_row db t k ≡ some r → Memᴰ k (db.keys t)
  known_of_found k r e = elim (Bool-cases (known db t k)) [
    | inl h ↦
        let (j, m, q) = (any_iff (str_eq k) (db.keys t)).0 h in
        subst (λ x. Memᴰ x (db.keys t)) (sym ((str_eq_iff k j).0 q)) m
    | inr h ↦ let n : none ≡ some r = (rw h refl) ∙ e in cc
  ]

  pub picked_complete :
      (k : Str) (r : Row)
      → find_row db t k ≡ some r
      → holds conds r ≡ true
      → fits like pattern r ≡ true
      → Memᴰ r (picked db t conds pattern (db.keys t))
  picked_complete k r e h f = Mem-picked (db.keys t) k r (known_of_found k r e) e (rw (h, f) refl)

Mem-cut : (limit : Option ℕ) (rows : List Row) (r : Row) → Memᴰ r (cut limit rows) → Memᴰ r rows
Mem-cut none rows r m = m
Mem-cut (some n) rows r m = Mem-take n rows r m

cut-Mem :
    (limit : Option ℕ) (rows : List Row) (r : Row)
    → Memᴰ r rows
    → Memᴰ r (cut limit rows) ⊎ (limit ≡ some (length (cut limit rows)))
cut-Mem none rows r m = inl m
cut-Mem (some n) rows r m = elim (take-Mem n rows r m) [ inl k ↦ inl k | inr e ↦ inr (ap some e) ]

length-cut :
    (limit : Option ℕ) (rows : List Row) (n : ℕ) → limit ≡ some n → length (cut limit rows) ≤ n
length-cut none rows n e = cc
length-cut (some m) rows n e = let f : m ≡ n = cc in omega (arith, length-take {0} m rows)

cut-IsSorted :
    (o : Order Row) (limit : Option ℕ) (rows : List Row)
    → IsSorted o rows
    → IsSorted o (cut limit rows)
cut-IsSorted o none rows s = s
cut-IsSorted o (some n) rows s = IsSorted-take o n rows s

pub select-Listing : (q : Select) (db : Store) → Listing (find_row db q.table) like q (select q db)
unfolding select
select-Listing q db =
    let found = picked db q.table q.conditions q.pattern (db.keys q.table) in
    let o = by_column q.order in
    record {
      sound = All-of_Mem (cut q.limit (sort o found)) λ r m.
          picked-Met db q.table q.conditions q.pattern (db.keys q.table) r
            ((mem-sort_iff o found r).0 (Mem-cut q.limit (sort o found) r m));
      complete = λ k r e h f. cut-Mem q.limit (sort o found) r (
          (mem-sort_iff o found r).1 (picked_complete db q.table q.conditions q.pattern k r e h f));
      bounded = length-cut q.limit (sort o found);
      sorted = cut-IsSorted o q.limit (sort o found) (sort-IsSorted o found);
    }

pub query_first-some :
    (t : Table) (cs : List Column) (conds : List (Column × Str)) (db : Store) {vs : List Value}
    → query_first t cs conds db ≡ some vs
    → (k : Str) × (r : Row) × (find_row db t k ≡ some r)
      × (holds conds r ≡ true)
      × (vs ≡ project cs r)
unfolding query_first
query_first-some t cs conds db {vs = vs} h =
    first (picked db t conds none (db.keys t)) (picked-Met db t conds none (db.keys t)) h
  where
    first :
        (rows : List Row)
        → ((r : Row) → Memᴰ r rows → Met db t conds none r)
        → first_row cs rows ≡ some vs
        → (k : Str) × (r : Row) × (find_row db t k ≡ some r)
          × (holds conds r ≡ true)
          × (vs ≡ project cs r)
    first [] f e = cc
    first (r ∷ rows) f e = let ((k, g), c, _) = f r (Memᴰ.head refl) in (k, r, g, c, cc)

pub query_first-none :
    (t : Table) (cs : List Column) (conds : List (Column × Str)) (db : Store)
    → query_first t cs conds db ≡ none
    → (k : Str) (r : Row) → find_row db t k ≡ some r
    → holds conds r ≡ false
unfolding query_first
query_first-none t cs conds db h k r e = elim (Bool-cases (holds conds r)) [
  | inl c ↦
      empty (picked db t conds none (db.keys t)) h (picked_complete db t conds none k r e c refl)
  | inr c ↦ c
]
  where
    empty : (rows : List Row) → first_row cs rows ≡ none → Memᴰ r rows → holds conds r ≡ false
    empty [] f m = elim m [ ]
    empty (s ∷ rows) f m = cc
