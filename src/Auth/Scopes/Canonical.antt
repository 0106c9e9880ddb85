-- ===== src/Auth/Scopes/Canonical.antt =====
-- What `scopeString` of internal/auth/auth.go depends on.
use googlysync.Prelude.{
  true, false, Bool-cases, inl, inr, ◌≡◌, ◌≢◌, ◌↔◌, ◌⊎◌, refl, sym, ap, subst, List, [], ◌∷◌, Memᴰ,
  any, any_iff, Str, is_empty, str_eq, str_eq_iff,
}
use googlysync.Prelude.Order.{str_order, str_leb_antisymm}
use googlysync.Prelude.Order.Distinct.{Distinct, sort_unique}
use googlysync.Auth.Scopes.{unique, scope_string, join}

-- whether a scope has been seen
seen_iff : (s : Str) (seen : List Str) → (any (str_eq s) seen ≡ true) ↔ Memᴰ s seen
seen_iff s seen = (
  λ h.
      let (t, m, e) = (any_iff (str_eq s) seen).0 h in
      subst (λ x. Memᴰ x seen) (sym ((str_eq_iff s t).0 e)) m,
  λ m. (any_iff (str_eq s) seen).1 (s, m, (str_eq_iff s s).1 refl),
)

empty_text : (s : Str) → is_empty s ≡ true → s ≡ []
empty_text [] h = refl
empty_text (c ∷ s) h = cc

text_empty : (s : Str) → s ≢ [] → is_empty s ≡ false
text_empty [] h = elim (h refl) [ ]
text_empty (c ∷ s) h = refl

-- The loop skips the scopes that are empty or have been seen.
Skipped : List Str → Str → Type 0
Skipped seen s = (s ≡ []) ⊎ Memᴰ s seen

unique_step :
    (seen : List Str) (s : Str) (ss : List Str)
    → (Skipped seen s × (unique seen (s ∷ ss) ≡ unique seen ss))
      ⊎ ((¬ Skipped seen s) × (unique seen (s ∷ ss) ≡ s ∷ unique (s ∷ seen) ss))
unfolding unique Skipped
unique_step seen [] ss = inl (inl refl, refl)
unique_step seen (c ∷ s) ss = elim (Bool-cases (any (str_eq (c ∷ s)) seen)) [
  | inl e ↦ inl (inr ((seen_iff (c ∷ s) seen).0 e), rw e refl)
  | inr e ↦ inr (new e, rw e refl)
]
  where
    new : any (str_eq (c ∷ s)) seen ≡ false → ¬ Skipped seen (c ∷ s)
    new e (inl h) = cc
    new e (inr m) = let b = (seen_iff (c ∷ s) seen).1 m in cc

Kept : List Str → List Str → Str → Type 0
Kept seen ss z = Memᴰ z ss × (¬ Skipped seen z)

unique_sound : (seen ss : List Str) (z : Str) → Memᴰ z (unique seen ss) → Kept seen ss z
unfolding unique Kept Skipped
unique_sound seen [] z m = elim m [ ]
unique_sound seen (s ∷ ss) z m = elim (unique_step seen s ss) [
  | inl (k, e) ↦ let (t, n) = unique_sound seen ss z (subst (Memᴰ z) e m) in (Memᴰ.tail t, n)
  | inr (n, e) ↦ first n (unique_sound (s ∷ seen) ss z) (subst (Memᴰ z) e m)
]
  where
    first :
        ¬ Skipped seen s
        → (Memᴰ z (unique (s ∷ seen) ss) → Kept (s ∷ seen) ss z)
        → Memᴰ z (s ∷ unique (s ∷ seen) ss)
        → Kept seen (s ∷ ss) z
    first n f (Memᴰ.head e) = (Memᴰ.head e, subst (λ w. ¬ Skipped seen w) (sym e) n)
    first n f (Memᴰ.tail k) = let (t, o) = f k in (Memᴰ.tail t, λ h. o (longer h))
      where
        longer : Skipped seen z → Skipped (s ∷ seen) z
        longer (inl h) = inl h
        longer (inr h) = inr (Memᴰ.tail h)

fresh :
    (seen : List Str) (s z : Str) → ¬ Skipped seen z → str_eq z s ≡ false → ¬ Skipped (s ∷ seen) z
unfolding Skipped
fresh seen s z n e (inl h) = n (inl h)
fresh seen s z n e (inr (Memᴰ.head h)) = let b = (str_eq_iff z s).1 h in cc
fresh seen s z n e (inr (Memᴰ.tail m)) = n (inr m)

unique_complete : (seen ss : List Str) (z : Str) → Kept seen ss z → Memᴰ z (unique seen ss)
unfolding unique Skipped Kept
unique_complete seen [] z (m, n) = elim m [ ]
unique_complete seen (s ∷ ss) z (m, n) = elim (unique_step seen s ss) [
  | inl (k, e) ↦ subst (Memᴰ z) (sym e) (old k (unique_complete seen ss z) m)
  | inr (k, e) ↦
      subst (Memᴰ z) (sym e) (new (unique_complete (s ∷ seen) ss z) (Bool-cases (str_eq z s)) m)
]
  where
    old :
        Skipped seen s
        → (Kept seen ss z → Memᴰ z (unique seen ss))
        → Memᴰ z (s ∷ ss)
        → Memᴰ z (unique seen ss)
    old k f (Memᴰ.head e) = elim (n (subst (Skipped seen) (sym e) k)) [ ]
    old k f (Memᴰ.tail t) = f (t, n)

    new :
        (Kept (s ∷ seen) ss z → Memᴰ z (unique (s ∷ seen) ss))
        → (str_eq z s ≡ true) ⊎ (str_eq z s ≡ false)
        → Memᴰ z (s ∷ ss)
        → Memᴰ z (s ∷ unique (s ∷ seen) ss)
    new f (inl e) m = Memᴰ.head ((str_eq_iff z s).0 e)
    new f (inr e) (Memᴰ.head h) = Memᴰ.head h
    new f (inr e) (Memᴰ.tail t) = Memᴰ.tail (f (t, fresh seen s z n e))

unique-Distinct : (seen ss : List Str) → Distinct (unique seen ss)
unfolding unique Skipped Kept
unique-Distinct seen [] = tt
unique-Distinct seen (s ∷ ss) = elim (unique_step seen s ss) [
  | inl (k, e) ↦ subst Distinct (sym e) (unique-Distinct seen ss)
  | inr (k, e) ↦ subst Distinct (sym e) (once, unique-Distinct (s ∷ seen) ss)
]
  where
    once : ¬ Memᴰ s (unique (s ∷ seen) ss)
    once m = (unique_sound (s ∷ seen) ss s m).1 (inr (Memᴰ.head refl))

-- a member, unless it is empty
Kept-mem :
    (ss ts : List Str) (z : Str) → (z ≢ [] → Memᴰ z ss → Memᴰ z ts) → Kept [] ss z → Kept [] ts z
unfolding Kept Skipped
Kept-mem ss ts z f (m, n) = (f (λ e. n (inl e)) m, n)

-- Two lists of scopes that hold the same scopes, but for the empty one, give the same text, whatever
-- their order and however often they repeat a scope.
pub scope_string-same :
    (ss ts : List Str)
    → ((z : Str) → z ≢ [] → Memᴰ z ss ↔ Memᴰ z ts)
    → scope_string ss ≡ scope_string ts
unfolding scope_string
scope_string-same ss ts h = ap join (
    sort_unique str_order str_leb_antisymm (unique [] ss) (unique [] ts) (unique-Distinct [] ss)
      (unique-Distinct [] ts)
      λ z. (
        λ m. unique_complete [] ts z (Kept-mem ss ts z (λ n. (h z n).0) (unique_sound [] ss z m)),
        λ m. unique_complete [] ss z (Kept-mem ts ss z (λ n. (h z n).1) (unique_sound [] ts z m)),
      ))
