-- ===== src/Status/History.antt =====
-- The store of internal/status/status.go against the whole history of events added to it.
use googlysync.Prelude.{
  ℕ, zero, suc, min, pos, negsuc, ◌≡◌, refl, List, [], ◌∷◌, ◌++◌, arith, last, Str, is_empty, true,
  Time, or_now, All, ◌∙◌, sym, ap,
}
use googlysync.Status.{
  Event, Store, new_store, set_max_events, update, label, add_event, current, trim,
}
use googlysync.Status.Ring.{trim-last, trim-snoc}
use googlysync.Status.Calls.{Call, sets_max, updates, adds, step, run}

-- The abstract store: every event ever added, oldest first, how many of the newest are kept, and
-- how many may be.
pub record View : Type 0 where
  pub history : List Event
  pub width : ℕ
  pub cap : ℕ

abbrev pub initial : View
initial = record { history = []; width = 0; cap = 20 }

abbrev pub stamped : Event → Time → Event
stamped evt now = record evt { when = or_now evt.when now }

-- A smaller cap forgets at once, and a larger one remembers nothing that is forgotten.
abbrev pub view_step : View → Call → View
view_step v (sets_max (pos (suc n))) = record v { width = min (suc n) v.width; cap = suc n }
view_step v (adds evt stamp now) = record v {
  history = v.history ++ stamped evt stamp ∷ [];
  width = min v.cap (suc v.width);
}
view_step v c = v

abbrev pub view : View → List Call → View
view v [] = v
view v (c ∷ cs) = view (view_step v c) cs

record Refines (s : Store) (v : View) : Type 0 where
  same_cap : s.max_events ≡ v.cap
  kept : s.event_ring ≡ last v.width v.history

step-Refines : (s : Store) (v : View) (c : Call) → Refines s v → Refines (step s c) (view_step v c)
unfolding step set_max_events update add_event
step-Refines s v (sets_max (pos zero)) r = r
step-Refines s v (sets_max (pos (suc n))) r = record {
  same_cap = refl;
  kept = ap (trim (suc n)) r.kept ∙ trim-last (suc n) v.width v.history;
}
step-Refines s v (sets_max (negsuc n)) r = r
step-Refines s v (updates snap now) r = record { same_cap = r.same_cap; kept = r.kept }
step-Refines s v (adds evt stamp now) r = record {
  same_cap = r.same_cap;
  kept =
      ap (λ m. trim m (s.event_ring ++ stamped evt stamp ∷ [])) r.same_cap
      ∙ ap (λ h. trim v.cap (h ++ stamped evt stamp ∷ [])) r.kept
      ∙ trim-snoc v.cap v.width v.history (stamped evt stamp);
}

run-Refines : (s : Store) (v : View) (cs : List Call) → Refines s v → Refines (run s cs) (view v cs)
unfolding run
run-Refines s v [] r = r
run-Refines s v (c ∷ cs) r = run-Refines (step s c) (view_step v c) cs (step-Refines s v c r)

-- After any calls on a new store, the events that `Current` returns are the newest of the history
-- of all events added, each stamped when it had no time, oldest first, as many as the abstract
-- store keeps: adding keeps one more up to the maximum, and a smaller maximum forgets the oldest.
pub current-eq-last :
    (now : Time) (cs : List Call)
    → (current (run (new_store now) cs)).recent_events
      ≡ last (view initial cs).width (view initial cs).history
unfolding current new_store last
current-eq-last now cs =
    (run-Refines (new_store now) initial cs (record { same_cap = refl; kept = refl })).kept

-- The label of the newest event, or the given text where there is none.
abbrev pub newest_label : Str → List Event → Str
newest_label d [] = d
newest_label d (e ∷ es) = newest_label (label e) es

newest_label-snoc :
    (d : Str) (es : List Event) (e : Event) → newest_label d (es ++ e ∷ []) ≡ label e
newest_label-snoc d [] e = refl
newest_label-snoc d (x ∷ es) e = newest_label-snoc (label x) es e

-- The updates that the program makes give no `LastEvent` of their own.
abbrev pub IsPlain : Call → Type 0
IsPlain (updates snap now) = is_empty snap.last_event ≡ true
IsPlain c = Unit

Labels : Store → View → Type 0
Labels s v = s.snapshot.last_event ≡ newest_label [] v.history

step-Labels :
    (s : Store) (v : View) (c : Call) → IsPlain c → Labels s v → Labels (step s c) (view_step v c)
unfolding step set_max_events update add_event Labels
step-Labels s v (sets_max (pos zero)) p l = l
step-Labels s v (sets_max (pos (suc n))) p l = l
step-Labels s v (sets_max (negsuc n)) p l = l
step-Labels s v (updates snap now) p l = ground arith
step-Labels s v (adds evt stamp now) p l = sym (newest_label-snoc [] v.history (stamped evt stamp))

run-Labels :
    (s : Store) (v : View) (cs : List Call)
    → All IsPlain cs
    → Labels s v
    → Labels (run s cs) (view v cs)
unfolding run
run-Labels s v [] p l = l
run-Labels s v (c ∷ cs) p l = run-Labels (step s c) (view_step v c) cs p.1 (step-Labels s v c p.0 l)

-- After calls whose updates give no `LastEvent`, which are all that the program makes, `Current`
-- reports the label of the newest event ever added, or the empty text before the first.
pub last_event-eq-newest :
    (now : Time) (cs : List Call)
    → All IsPlain cs
    → (current (run (new_store now) cs)).last_event ≡ newest_label [] (view initial cs).history
unfolding current new_store Labels
last_event-eq-newest now cs p = run-Labels (new_store now) initial cs p refl
