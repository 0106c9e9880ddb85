-- ===== src/Fswatch/Watcher/Flush.antt =====
-- The first loop of `flushPending` of internal/fswatch/fswatch.go, over the map of pending events.
use googlysync.Prelude.{
  Bool, true, false, ◌≡◌, refl, sym, ap, ◌∙◌, Option, none, some, List, [], ◌∷◌, arith,
  if◌then◌else◌, any, Str, str_eq, str_eq_iff, Time, Bool-cases, Option-cases, inl, inr,
}
use googlysync.Prelude.Dict.{Dict, get, delete, get-delete}
use googlysync.Fswatch.Ops.{Op}
use googlysync.Fswatch.Watcher.{Event, due, collect}

-- the events of a list at a path
abbrev pub events_at : Str → List Event → List Event
events_at p [] = []
events_at p (e ∷ es) = let rest = events_at p es in if str_eq e.path p then e ∷ rest else rest

-- the loop meets the key
abbrev pub meets : List Str → Str → Bool
meets ks p = any (λ k. str_eq k p) ks

-- what is left of a pending event that the loop meets
abbrev pub kept : Time → Option Event → Option Event
kept now o = elim (due now o) [ none ↦ o | some op ↦ none ]

-- what a pending event that the loop meets is flushed as
abbrev pub flushed : Time → Str → Option Event → List Event
flushed now p o = elim (due now o) [
  | none ↦ []
  | some op ↦ record { path = p; op = op; when = now } ∷ []
]

if_same {ℓ} : {A : Type ℓ} (b : Bool) (x : A) → (if b then x else x) ≡ x
if_same true x = refl
if_same false x = refl

module _ (now : Time) (p : Str) where
  kept_none : (o : Option Event) → due now o ≡ none → kept now o ≡ o
  kept_none o d = ground arith

  kept_some : (o : Option Event) {op : Op} → due now o ≡ some op → kept now o ≡ none
  kept_some o d = ground arith

  flushed-none : (o : Option Event) → due now o ≡ none → flushed now p o ≡ []
  flushed-none o d = ground arith

  flushed-some :
      (o : Option Event) {op : Op}
      → due now o ≡ some op
      → flushed now p o ≡ record { path = p; op = op; when = now } ∷ []
  flushed-some o d = ground arith

  due_at :
      (k : Str) (pending : Dict Event) {o : Option Op}
      → str_eq k p ≡ true
      → due now (get pending k) ≡ o
      → due now (get pending p) ≡ o
  due_at k pending e d = ap (λ j. due now (get pending j)) (sym ((str_eq_iff k p).0 e)) ∙ d

  pub get-collect :
      (ks : List Str) (pending : Dict Event)
      → get (collect now ks pending).1 p
        ≡ (if meets ks p then kept now (get pending p) else get pending p)
  unfolding collect any
  get-collect [] pending = refl
  get-collect (k ∷ ks) pending = elim (Option-cases (due now (get pending k))) [
    | inl d ↦
        rw (d, collect)
          (elim (Bool-cases (str_eq k p)) [
            | inl e ↦
                rw (get-collect ks pending, e, kept_none (get pending p) (due_at k pending e d))
                  (if_same (meets ks p) _)
            | inr e ↦ rw e (get-collect ks pending)
          ])
    | inr (op, d) ↦
        rw (d, collect)
          (elim (Bool-cases (str_eq k p)) [
            | inl e ↦
                rw
                  (
                    get-collect ks (delete pending k),
                    e,
                    kept_some (get pending p) (due_at k pending e d),
                    get-delete,
                    e,
                  )
                  (if_same (meets ks p) none)
            | inr e ↦ rw (get-collect ks (delete pending k), get-delete, e) refl
          ])
  ]

  pub events_at-collect :
      (ks : List Str) (pending : Dict Event)
      → events_at p (collect now ks pending).0
        ≡ (if meets ks p then flushed now p (get pending p) else [])
  unfolding collect any
  events_at-collect [] pending = refl
  events_at-collect (k ∷ ks) pending = elim (Option-cases (due now (get pending k))) [
    | inl d ↦
        rw (d, collect)
          (elim (Bool-cases (str_eq k p)) [
            | inl e ↦
                rw
                  (
                    events_at-collect ks pending,
                    e,
                    flushed-none (get pending p) (due_at k pending e d),
                  )
                  (if_same {A = List Event} (meets ks p) [])
            | inr e ↦ rw e (events_at-collect ks pending)
          ])
    | inr (op, d) ↦
        rw (d, collect)
          (elim (Bool-cases (str_eq k p)) [
            | inl e ↦
                rw
                  (
                    e,
                    events_at-collect ks (delete pending k),
                    flushed-some (get pending p) (due_at k pending e d),
                    get-delete,
                    e,
                    if_same {A = List Event} (meets ks p) [],
                  )
                  (ap (λ j. record { path = j; op = op; when = now } ∷ []) ((str_eq_iff k p).0 e))
            | inr e ↦ rw (events_at-collect ks (delete pending k), get-delete, e) refl
          ])
  ]
