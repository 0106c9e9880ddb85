-- ===== src/Status/Calls.antt =====
-- Histories of calls on the store of internal/status/status.go.
use googlysync.Prelude.{
  ℕ, zero, suc, ◌≤◌, ◌<◌, ℤ, pos, negsuc, ◌≡◌, refl, List, [], ◌∷◌, arith, length, length-last,
  Time,
}
use googlysync.Status.{Event, Snapshot, Store, new_store, set_max_events, update, add_event, trim}
use googlysync.Status.Ring.{trim-eq-last}

-- One call of a method that writes, with its readings of the clock.
pub data Call : Type 0 where
  sets_max : ℤ → Call
  updates : Snapshot → Time → Call
  adds : Event → Time → Time → Call

unfoldable pub step : Store → Call → Store
step s (sets_max max) = set_max_events max s
step s (updates snap now) = update snap now s
step s (adds evt stamp now) = add_event evt stamp now s

unfoldable pub run : Store → List Call → Store
run s [] = s
run s (c ∷ cs) = run (step s c) cs

-- What holds of a store between two calls.
pub record IsValid (s : Store) : Type 0 where
  pub positive : 0 < s.max_events
  pub bounded : length s.event_ring ≤ s.max_events
  pub shown : s.snapshot.recent_events ≡ s.event_ring

new_store-IsValid : (now : Time) → IsValid (new_store now)
unfolding new_store
new_store-IsValid now = record { positive = omega arith; bounded = omega arith; shown = refl }

length-trim-le : (m : ℕ) (xs : List Event) → length (trim m xs) ≤ m
length-trim-le m xs = rw trim-eq-last (omega (arith, length-last m xs))

step-IsValid : (s : Store) (c : Call) → IsValid s → IsValid (step s c)
unfolding step set_max_events update add_event
step-IsValid s (sets_max (pos zero)) v = v
step-IsValid s (sets_max (pos (suc n))) v = record {
  positive = omega arith;
  bounded = length-trim-le (suc n) s.event_ring;
  shown = refl;
}
step-IsValid s (sets_max (negsuc n)) v = v
step-IsValid s (updates snap now) v = record {
  positive = v.positive;
  bounded = v.bounded;
  shown = refl;
}
step-IsValid s (adds evt stamp now) v = record {
  positive = v.positive;
  bounded = length-trim-le s.max_events _;
  shown = refl;
}

run_from-IsValid : (s : Store) (cs : List Call) → IsValid s → IsValid (run s cs)
unfolding run
run_from-IsValid s [] v = v
run_from-IsValid s (c ∷ cs) v = run_from-IsValid (step s c) cs (step-IsValid s c v)

-- After any calls on a new store the ring holds at most the maximum, which is positive, and the
-- snapshot shows exactly the ring.
pub run-IsValid : (now : Time) (cs : List Call) → IsValid (run (new_store now) cs)
run-IsValid now cs = run_from-IsValid (new_store now) cs (new_store-IsValid now)
