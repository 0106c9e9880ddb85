-- ===== src/Storage/Opening/Opened.antt =====
-- What `NewStorage` of internal/storage/storage.go leaves behind.
use googlysync.Prelude.{true, false, ◌≡◌, ◌⊎◌, inl, inr, refl, none, some, Option, Str, ok, err}
use googlysync.Storage.Opening.{Handle, Returns, new_storage, migrate}

-- The handle is open, with one connection on which foreign keys are checked, and the migrations have
-- been applied.
abbrev pub IsReady : Handle → Type 0
IsReady h =
    (h.is_open ≡ true)
    × (h.max_open ≡ 1)
    × (h.foreign_keys ≡ true)
    × (h.busy_timeout ≡ 5000)
    × (h.migrated ≡ true)

abbrev pub AllDone : Returns → Type 0
AllDone r =
    (r.directory_made ≡ none)
    × (r.opened ≡ none)
    × (r.foreign_keys_set ≡ none)
    × (r.busy_timeout_set ≡ none)
    × (r.dialect_set ≡ none)
    × (r.migrations_applied ≡ none)

apart : {e : Str} → ¬ (some e ≡ none)
apart h = cc

abbrev Outcome : Returns → Type 0
Outcome r =
    (AllDone r × ((new_storage r).1 ≡ ok tt) × IsReady (new_storage r).0)
    ⊎ ((¬ AllDone r)
        × ((e : Str) × ((new_storage r).1 ≡ err e))
        × ((new_storage r).0.is_open ≡ false))

outcome :
    (a b c d f g h : Option Str)
    → Outcome (record {
      directory_made = a;
      opened = b;
      foreign_keys_set = c;
      busy_timeout_set = d;
      dialect_set = f;
      migrations_applied = g;
      closed = h;
    })
unfolding new_storage migrate
outcome (some e) a b c d f g = inr (λ x. apart x.0, (e, refl), refl)
outcome none (some e) a b c d g = inr (λ x. apart x.1, (e, refl), refl)
outcome none none (some e) a b c g = inr (λ x. apart x.2, (e, refl), refl)
outcome none none none (some e) a b g = inr (λ x. apart x.3, (e, refl), refl)
outcome none none none none (some e) a g = inr (λ x. apart x.4, (e, refl), refl)
outcome none none none none none (some e) g = inr (λ x. apart x.5, (e, refl), refl)
outcome none none none none none none g =
    inl ((refl, refl, refl, refl, refl, refl), refl, (refl, refl, refl, refl, refl))

-- `NewStorage` either returns a storage that is ready, which is so exactly when each of its calls
-- succeeds, or returns an error and leaves no handle open.
pub new_storage-IsReady :
    (r : Returns)
    → (AllDone r × ((new_storage r).1 ≡ ok tt) × IsReady (new_storage r).0)
      ⊎ ((¬ AllDone r)
          × ((e : Str) × ((new_storage r).1 ≡ err e))
          × ((new_storage r).0.is_open ≡ false))
new_storage-IsReady r =
    outcome r.directory_made r.opened r.foreign_keys_set r.busy_timeout_set r.dialect_set
      r.migrations_applied r.closed
