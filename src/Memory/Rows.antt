-- ===== src/Memory/Rows.antt =====
-- Rows that stand under their key, and the statements that keep them there.
use googlysync.Prelude.{
  Bool, Bool-cases, inl, inr, ◌↔◌, ap, ◌∙◌, ℕ, zero, suc, arith, subst, str_eq_iff, str_eq_refl,
  true, false, ◌&&◌, ◌≡◌, refl, sym, Option, none, some, List, if◌then◌else◌, Str, str_eq,
}
use googlysync.Storage.Sql.{
  Value, null, text, integer, Column, Row, accounts, token_refs, sync_state, files, folders,
  shared_drives, pending_ops, table_code, Table, merge_row, key_of, left_after, left_where, changed,
  written, falls_with, account_of, listed, same_table, depends_on_account, holds,
}

abbrev has_key : Str → Value → Bool
has_key k null = false
has_key k (integer n) = false
has_key k (text j) = str_eq j k

-- A row stands under the text of its key.
abbrev pub keyed : Table → Str → Option Row → Option Row
keyed t k none = none
keyed t k (some r) = if has_key k (r (key_of t)) then some r else none

has_key_iff : (k : Str) (v : Value) → (has_key k v ≡ true) ↔ (v ≡ text k)
has_key_iff k v = (only v, λ e. rw e (str_eq_refl k))
  where
    only : (v : Value) → has_key k v ≡ true → v ≡ text k
    only null h = cc
    only (integer n) h = cc
    only (text j) h = ap text ((str_eq_iff j k).0 h)

abbrev pub HasKey : Table → Str → Option Row → Type 0
HasKey t k o = (r : Row) → o ≡ some r → r (key_of t) ≡ text k

pub keyed-HasKey : (t : Table) (k : Str) (o : Option Row) → HasKey t k (keyed t k o)
keyed-HasKey t k none r h = cc
keyed-HasKey t k (some s) r h = elim (Bool-cases (has_key k (s (key_of t)))) [
  | inl e ↦
      let g : some s ≡ some r = (rw e refl) ∙ h in
      let p : s ≡ r = cc in rw (sym p) ((has_key_iff k (s (key_of t))).0 e)
  | inr e ↦ let g : none ≡ some r = (rw e refl) ∙ h in cc
]

pub keyed_same : (t : Table) (k : Str) (o : Option Row) → HasKey t k o → keyed t k o ≡ o
keyed_same t k none h = refl
keyed_same t k (some r) h = rw ((has_key_iff k (r (key_of t))).1 (h r refl)) refl

abbrev table_at : ℕ → Table
table_at zero = accounts
table_at (suc zero) = token_refs
table_at (suc (suc zero)) = sync_state
table_at (suc (suc (suc zero))) = files
table_at (suc (suc (suc (suc zero)))) = folders
table_at (suc (suc (suc (suc (suc zero))))) = shared_drives
table_at (suc (suc (suc (suc (suc (suc n)))))) = pending_ops

table_at-table_code : (t : Table) → table_at (table_code t) ≡ t
table_at-table_code accounts = refl
table_at-table_code token_refs = refl
table_at-table_code sync_state = refl
table_at-table_code files = refl
table_at-table_code folders = refl
table_at-table_code shared_drives = refl
table_at-table_code pending_ops = refl

pub same_table_sound : (t u : Table) → same_table t u ≡ true → t ≡ u
same_table_sound t u h =
    let e : table_code t ≡ table_code u = grind arith in
    sym (table_at-table_code t) ∙ ap table_at e ∙ table_at-table_code u

pub merge_row-HasKey :
    (t : Table) (k : Str) (sets : List Column) (o : Option Row) (new : Row)
    → HasKey t k o
    → new (key_of t) ≡ text k
    → merge_row sets o new (key_of t) ≡ text k
merge_row-HasKey t k sets none new h e = e
merge_row-HasKey t k sets (some r) new h e = elim (Bool-cases (listed (key_of t) sets)) [
  | inl f ↦ rw f e
  | inr f ↦ rw f (h r refl)
]

pub if_HasKey :
    (b : Bool) (t : Table) (k : Str) (o p : Option Row)
    → (b ≡ true → HasKey t k o)
    → HasKey t k p
    → HasKey t k (if b then o else p)
if_HasKey true t k o p g h = g refl
if_HasKey false t k o p g h = h

pub written-HasKey :
    (t : Table) (k : Str) (new : Row) (u : Table) (j : Str) (o : Option Row)
    → new (key_of t) ≡ text k
    → HasKey u j o
    → HasKey u j (written t k new u j o)
written-HasKey t k new u j o e h =
    if_HasKey (same_table t u && str_eq k j) u j (some new) o
      (λ f r g.
        let i : t ≡ u = same_table_sound t u (grind arith) in
        let l : k ≡ j = (str_eq_iff k j).0 (grind arith) in
        let n : new ≡ r = cc in
        subst (λ v. r (key_of v) ≡ text j) i
          (subst (λ w. r (key_of t) ≡ text w) l (subst (λ w. w (key_of t) ≡ text k) n e)))
      h

falls_with_sound : (k : Str) (o : Option Row) (r : Row) → falls_with k o ≡ some r → o ≡ some r
falls_with_sound k none r h = h
falls_with_sound k (some s) r h = left (account_of s) h
  where
    left :
        (x : Option Str)
        → elim x [ none ↦ some s | some b ↦ if str_eq k b then none else some s ] ≡ some r
        → some s ≡ some r
    left none g = g
    left (some b) g = elim (Bool-cases (str_eq k b)) [
      | inl e ↦ let f : none ≡ some r = (rw e refl) ∙ g in cc
      | inr e ↦ (rw e refl) ∙ g
    ]

pub left_after-HasKey :
    (t : Table) (k : Str) (u : Table) (j : Str) (o : Option Row)
    → HasKey u j o
    → HasKey u j (left_after t k u j o)
left_after-HasKey t k u j o h =
    if_HasKey (same_table t u) u j (if str_eq k j then none else o) _
      (λ e. if_HasKey (str_eq k j) u j none o (λ f r g. cc) h)
      (if_HasKey (same_table t accounts && depends_on_account u) u j (falls_with k o) o
        (λ e r g. h r (falls_with_sound k o r g)) h)

pub changed-HasKey :
    (t : Table) (k : Str) (cs : List Column) (new : Row) (o : Option Row)
    → listed (key_of t) cs ≡ false
    → HasKey t k o
    → HasKey t k (changed cs new o)
changed-HasKey t k cs new none l h q e = cc
changed-HasKey t k cs new (some r) l h q e =
    let p : merge_row cs (some r) new ≡ q = cc in
    let g : merge_row cs (some r) new (key_of t) ≡ r (key_of t) = rw l refl in
    ap (λ x. x (key_of t)) (sym p) ∙ g ∙ h r refl

pub left_where-HasKey :
    (conds : List (Column × Str)) (u : Table) (j : Str) (o : Option Row)
    → HasKey u j o
    → HasKey u j (left_where conds u o)
left_where-HasKey conds u j none h = h
left_where-HasKey conds u j (some r) h =
    if_HasKey (same_table files u && holds conds r) u j none (some r) (λ e q g. cc) h

-- A statement finds nothing where there was nothing, but for what it writes.
pub left_after-none : (t : Table) (k : Str) (u : Table) (j : Str) → left_after t k u j none ≡ none
left_after-none t k u j = ground arith
