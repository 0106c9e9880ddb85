-- ===== src/Auth/Active/Choice.antt =====
-- Which account `NewService` of internal/auth/auth.go starts with.
use googlysync.Prelude.{
  Bool-cases, inl, inr, ◌⊎◌, true, false, ◌&&◌, ◌≡◌, refl, sym, ap, ◌∙◌, subst, Option, none, some,
  Option-cases, List, [], ◌∷◌, Memᴰ, All, ok,
}
use googlysync.Storage.Sql.{Engine}
use googlysync.Storage.Accounts.{Account, list_accounts}
use googlysync.Auth.Active.{has_ref, candidates, first_primary, choose, find_active_account}

abbrev Secondary : Account → Type 0
Secondary b = b.is_primary ≡ false

first_primary_sound :
    (cs : List Account) {p : Account}
    → first_primary cs ≡ some p
    → Memᴰ p cs × (p.is_primary ≡ true)
unfolding first_primary
first_primary_sound [] h = cc
first_primary_sound (c ∷ cs) {p = p} h = elim (Bool-cases c.is_primary) [
  | inl e ↦
      let g : some c ≡ some p = (rw e refl) ∙ h in
      let q : p ≡ c = cc in (Memᴰ.head q, ap (λ x. x.is_primary) q ∙ e)
  | inr e ↦
      let g : first_primary cs ≡ some p = (rw e refl) ∙ h in
      let (m, q) = first_primary_sound cs g in (Memᴰ.tail m, q)
]

first_primary-none : (cs : List Account) → first_primary cs ≡ none → All Secondary cs
unfolding first_primary
first_primary-none [] h = tt
first_primary-none (c ∷ cs) h = elim (Bool-cases c.is_primary) [
  | inl e ↦ let g : some c ≡ none = (rw e refl) ∙ h in cc
  | inr e ↦ let g : first_primary cs ≡ none = (rw e refl) ∙ h in (e, first_primary-none cs g)
]

-- among the candidates
abbrev Chosen : List Account → Option Account → Type 0
Chosen cs none = cs ≡ []
Chosen cs (some a) = Memᴰ a cs × ((a.is_primary ≡ true) ⊎ All Secondary cs)

choose-Chosen : (cs : List Account) → Chosen cs (choose cs)
unfolding choose
choose-Chosen [] = refl
choose-Chosen (c ∷ cs) = elim (Option-cases (first_primary (c ∷ cs))) [
  | inl e ↦
      let q : choose (c ∷ cs) ≡ some c = rw (choose, e) refl in
      subst (Chosen (c ∷ cs)) (sym q) (Memᴰ.head refl, inr (first_primary-none (c ∷ cs) e))
  | inr (p, e) ↦
      let q : choose (c ∷ cs) ≡ some p = rw (choose, e) refl in
      let (m, r) = first_primary_sound (c ∷ cs) e in subst (Chosen (c ∷ cs)) (sym q) (m, inl r)
]

module _ (sql : Engine) where
  open sql use {Db}

  -- What `findActiveAccount` may answer of the accounts listed.
  abbrev pub IsActive : Db → List Account → Option Account → Type 0
  IsActive db as' none = All (λ b. has_ref sql db b ≡ false) as'
  IsActive db as' (some a) =
      Memᴰ a as'
      × (has_ref sql db a ≡ true)
      × ((a.is_primary ≡ true) ⊎ All (λ b. has_ref sql db b && b.is_primary ≡ false) as')

  candidates_kept :
      (db : Db) (b : Account) (bs : List Account)
      → has_ref sql db b ≡ true
      → candidates sql db (b ∷ bs) ≡ b ∷ candidates sql db bs
  unfolding candidates
  candidates_kept db b bs e = rw e refl

  candidates_skipped :
      (db : Db) (b : Account) (bs : List Account)
      → has_ref sql db b ≡ false
      → candidates sql db (b ∷ bs) ≡ candidates sql db bs
  unfolding candidates
  candidates_skipped db b bs e = rw e refl

  candidates-Mem :
      (db : Db) (as' : List Account) (a : Account)
      → Memᴰ a (candidates sql db as')
      → Memᴰ a as' × (has_ref sql db a ≡ true)
  unfolding candidates
  candidates-Mem db [] a m = elim m [ ]
  candidates-Mem db (b ∷ bs) a m = elim (Bool-cases (has_ref sql db b)) [
    | inl e ↦ first e (candidates-Mem db bs a) (subst (Memᴰ a) (candidates_kept db b bs e) m)
    | inr e ↦
        let (n, r) = candidates-Mem db bs a (subst (Memᴰ a) (candidates_skipped db b bs e) m) in
        (Memᴰ.tail n, r)
  ]
    where
      first :
          has_ref sql db b ≡ true
          → (Memᴰ a (candidates sql db bs) → Memᴰ a bs × (has_ref sql db a ≡ true))
          → Memᴰ a (b ∷ candidates sql db bs)
          → Memᴰ a (b ∷ bs) × (has_ref sql db a ≡ true)
      first e later (Memᴰ.head q) = (Memᴰ.head q, ap (has_ref sql db) q ∙ e)
      first e later (Memᴰ.tail n) = let (l, r) = later n in (Memᴰ.tail l, r)

  candidates-All :
      (db : Db) (as' : List Account)
      → All Secondary (candidates sql db as')
      → All (λ b. has_ref sql db b && b.is_primary ≡ false) as'
  unfolding candidates
  candidates-All db [] h = tt
  candidates-All db (b ∷ bs) h = elim (Bool-cases (has_ref sql db b)) [
    | inl e ↦
        let (p, q) = subst (All Secondary) (candidates_kept db b bs e) h in
        (rw (e, p) refl, candidates-All db bs q)
    | inr e ↦
        let q = subst (All Secondary) (candidates_skipped db b bs e) h in
        (rw e refl, candidates-All db bs q)
  ]

  candidates_none :
      (db : Db) (as' : List Account)
      → candidates sql db as' ≡ []
      → All (λ b. has_ref sql db b ≡ false) as'
  unfolding candidates
  candidates_none db [] h = tt
  candidates_none db (b ∷ bs) h = elim (Bool-cases (has_ref sql db b)) [
    | inl e ↦ let q = sym (candidates_kept db b bs e) ∙ h in cc
    | inr e ↦ (e, candidates_none db bs (sym (candidates_skipped db b bs e) ∙ h))
  ]

  choose-IsActive :
      (db : Db) (as' : List Account) (o : Option Account)
      → Chosen (candidates sql db as') o
      → IsActive db as' o
  choose-IsActive db as' none h = candidates_none db as' h
  choose-IsActive db as' (some a) (m, p) =
      let (n, r) = candidates-Mem db as' a m in
      (n, r, elim p [ inl q ↦ inl q | inr q ↦ inr (candidates-All db as' q) ])

  -- Where the accounts can be listed, the service starts signed out exactly if no listed account has
  -- a token reference that can be read; otherwise with a listed account that has one, and a primary
  -- one unless no account that has a reference is primary.
  pub find_active_account-IsActive :
      (db : Db) (as' : List Account)
      → list_accounts sql db ≡ ok as'
      → IsActive db as' (find_active_account sql db)
  unfolding find_active_account
  find_active_account-IsActive db as' h =
      let q : find_active_account sql db ≡ choose (candidates sql db as') =
        rw (find_active_account, h) refl in
      subst (IsActive db as') (sym q)
        (choose-IsActive db as' _ (choose-Chosen (candidates sql db as')))
