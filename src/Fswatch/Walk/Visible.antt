-- ===== src/Fswatch/Walk/Visible.antt =====
-- What `addRecursive` of internal/fswatch/fswatch.go watches.
use googlysync.Prelude.{
  some, Bool, true, false, ◌≡◌, refl, sym, ap, ◌∙◌, List, [], ◌∷◌, ◌++◌, if◌then◌else◌, Str,
  Bool-cases, inl, inr, append_assoc, append-nil,
}
use googlysync.Fswatch.Walk.{
  Tree, file, dir, unreadable, Forest, nil, cons, visit_dir, walk, walk_all, Walk, add_recursive,
}

module _ (ignored : Str → Bool) where
  -- The directories to watch: those that are not ignored and stand below none that is.
  mutual
    pub visible : Tree → List Str
    visible (file path) = []
    visible (dir path entries) =
        let below = visible_all entries in if ignored path then [] else path ∷ below
    visible (unreadable path) = if ignored path then [] else path ∷ []

    pub visible_all : Forest → List Str
    visible_all nil = []
    visible_all (cons t ts) = visible t ++ visible_all ts

module _ (ignored : Str → Bool) (accepts : Str → Bool) where
  -- What a walk has added is a first part of what there is to add, and all of it unless it stopped.
  Covers : List Str → List Str → Walk → Type 0
  Covers added all r = (rest : List Str) × (r.0 ++ rest ≡ added ++ all) × (r.1 ≡ true → rest ≡ [])

  visit_dir-Covers :
      (path : Str) (below added : List Str) (entries : List Str → Walk)
      → ((acc : List Str) → Covers acc below (entries acc))
      → Covers added
          (if ignored path then [] else path ∷ below)
          (visit_dir ignored accepts path entries added)
  unfolding visit_dir Covers
  visit_dir-Covers path below added entries h = elim (Bool-cases (ignored path)) [
    | inl e ↦ rw e ([], refl, λ _. refl)
    | inr e ↦ elim (Bool-cases (accepts path)) [
      | inl a ↦
          let (rest, q, d) = h (added ++ path ∷ []) in
          rw (e, a) (rest, q ∙ append_assoc added (path ∷ []) below, d)
      | inr a ↦ rw (e, a) (path ∷ below, refl, λ f. cc)
    ]
  ]

  join_Covers :
      (first others added : List Str) (r : Walk) (next : List Str → Walk)
      → Covers added first r
      → ((acc : List Str) → Covers acc others (next acc))
      → Covers added (first ++ others) (elim r.1 [ true ↦ next r.0 | false ↦ (r.0, false) ])
  unfolding Covers
  join_Covers first others added (acc, true) next (rest, q, d) h =
      let (rest', q', d') = h acc in
      (
        rest',
        q'
            ∙ ap (λ l. l ++ others) (sym (append-nil acc) ∙ ap (◌++◌ acc) (sym (d refl)) ∙ q)
            ∙ append_assoc added first others,
        d',
      )
  join_Covers first others added (acc, false) next (rest, q, d) h = (
    rest ++ others,
    sym (append_assoc acc rest others) ∙ ap (λ l. l ++ others) q ∙ append_assoc added first others,
    λ f. cc,
  )

  mutual
    unfolding walk visible Covers

    walk-Covers :
        (t : Tree) (added : List Str)
        → Covers added (visible ignored t) (walk ignored accepts t added)
    walk-Covers (file path) added = ([], refl, λ _. refl)
    walk-Covers (dir path entries) added =
        visit_dir-Covers path (visible_all ignored entries) added (walk_all ignored accepts entries)
          (walk_all-Covers entries)
    walk-Covers (unreadable path) added =
        visit_dir-Covers path [] added (λ acc. (acc, false)) (λ acc. ([], refl, λ f. refl))

    walk_all-Covers :
        (ts : Forest) (added : List Str)
        → Covers added (visible_all ignored ts) (walk_all ignored accepts ts added)
    walk_all-Covers nil added = ([], refl, λ _. refl)
    walk_all-Covers (cons t ts) added =
        join_Covers (visible ignored t) (visible_all ignored ts) added
          (walk ignored accepts t added) (walk_all ignored accepts ts) (walk-Covers t added)
          (walk_all-Covers ts)

  -- However a walk goes, the directories that it adds are the first of those that are not ignored
  -- and stand below no ignored one, in the order of the walk; and if it returns no error it has
  -- added them all.
  pub add_recursive-visible :
      (t : Tree) (added : List Str)
      → let r = add_recursive ignored accepts (some t) added in
        (rest : List Str) × (r.0 ++ rest ≡ added ++ visible ignored t) × (r.1 ≡ true → rest ≡ [])
  unfolding add_recursive Covers
  add_recursive-visible t added = walk-Covers t added
