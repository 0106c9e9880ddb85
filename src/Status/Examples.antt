-- ===== src/Status/Examples.antt =====
-- The status store on a short history of calls.
use googlysync.Prelude.{pos, ◌≡◌, refl, List, [], ◌∷◌, lit, last}
use googlysync.Status.{Event, new_store, set_max_events, update, add_event, current, brief, syncing}
use googlysync.Status.Calls.{Call, sets_max, updates, adds, step, run, IsValid, run-IsValid}
use googlysync.Status.History.{initial, view, current-eq-last}

abbrev written : Event
written = record { op = lit "WRITE"; path = lit "a.txt"; when = 7 }

abbrev removed : Event
removed = record { op = lit "REMOVE"; path = lit "b.txt"; when = 0 }

-- a cap of one, two events, and a report between them
abbrev calls : List Call
calls =
    sets_max (pos 1)
    ∷ adds written 8 9
    ∷ updates (brief syncing (lit "sync tick")) 10
    ∷ adds removed 11 12
    ∷ []

-- the second event takes the place of the first, and the clock gives its time
recent_test : (current (run (new_store 1) calls)).recent_events ≡ record removed { when = 11 } ∷ []
unfolding current run step new_store set_max_events update add_event
recent_test = refl

run-IsValid_example : IsValid (run (new_store 1) calls)
run-IsValid_example = run-IsValid 1 calls

current-eq-last_example :
    (current (run (new_store 1) calls)).recent_events
    ≡ last (view initial calls).width (view initial calls).history
current-eq-last_example = current-eq-last 1 calls
