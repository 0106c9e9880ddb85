-- ===== src/Status/Keeping.antt =====
-- Runs of calls on the store of internal/status/status.go, by the events that they add.
use googlysync.Prelude.{
  ◌≤◌, ◌≡◌, sym, ap, ◌∙◌, List, [], ◌++◌, append-nil, append_assoc, length, last, length-last,
  last-append-last, last-append_short, arith,
}
use googlysync.Status.{Event, Store}

abbrev pub Bounded : Store → Type 0
Bounded s = length s.event_ring ≤ s.max_events

-- The newest of the old events and some more are kept, as many as may be.
abbrev pub Keeps : Store → Store → List Event → Type 0
Keeps s t es =
    (t.max_events ≡ s.max_events) × (t.event_ring ≡ last s.max_events (s.event_ring ++ es))

pub Keeps-same :
    (s t : Store)
    → Bounded s
    → t.max_events ≡ s.max_events
    → t.event_ring ≡ s.event_ring
    → Keeps s t []
Keeps-same s t b m r =
    let short : length (s.event_ring ++ []) ≤ s.max_events = rw append-nil b in
    (
      m,
      r
          ∙ sym (append-nil s.event_ring)
          ∙ sym (last-append_short s.max_events s.event_ring [] short),
    )

pub Keeps-Bounded : (s t : Store) (es : List Event) → Keeps s t es → Bounded t
Keeps-Bounded s t es k =
    omega (arith, k.0, ap length k.1, length-last s.max_events (s.event_ring ++ es))

pub Keeps-trans :
    (r s t : Store) (es fs : List Event) → Keeps r s es → Keeps s t fs → Keeps r t (es ++ fs)
Keeps-trans r s t es fs k l = (
  l.0 ∙ k.0,
  l.1
      ∙ ap (λ m. last m (s.event_ring ++ fs)) k.0
      ∙ ap (λ es'. last r.max_events (es' ++ fs)) k.1
      ∙ last-append-last r.max_events (r.event_ring ++ es) fs
      ∙ ap (last r.max_events) (append_assoc r.event_ring es fs),
)
