-- ===== src/Fswatch/Watcher/Burst.antt =====
-- What `handleEvent` of internal/fswatch/fswatch.go makes of a burst of events.
use googlysync.Prelude.{
  ◌+◌, ◌≤◌, Bool, ◌≡◌, refl, ap, ◌∙◌, Option, none, some, List, [], ◌∷◌, ◌++◌, sym, map, arith,
  if◌then◌else◌, Str, str_eq, str_eq_iff, str_eq_refl, Time, All, All-mono, Memᴰ, Bool-cases, inl,
  inr,
}
use native.Mathlib.Nat.{le_trans}
use googlysync.Prelude.Dict.{Dict, get, get-put}
use googlysync.Config.{Config}
use googlysync.Fswatch.Ops.{Op, unknown, priority, merge_op, Masks, normalize_op}
use googlysync.Fswatch.Ops.Merge.{merge_op_assoc, merge_op_unknown, merge_op_upper, merge_op_choice}
use googlysync.Fswatch.Paths.{Filepath, should_ignore}
use googlysync.Fswatch.Watcher.{
  Event, Watcher, Arrival, debounce, merge_pending, remember, remember_known, handle_event,
}

-- an operation seen at a time
abbrev pub Hit : Type 0
Hit = Op × Time

-- the strongest of some operations
abbrev pub strongest : List Op → Op
strongest [] = unknown
strongest (o ∷ os) = merge_op o (strongest os)

-- the time of the last hit
abbrev pub last_time : Hit → List Hit → Time
last_time h [] = h.1
last_time h (k ∷ ks) = last_time k ks

abbrev known_hit : Op → Time → List Hit → List Hit
known_hit unknown t rest = rest
known_hit o t rest = (o, t) ∷ rest

module _ (fp : Filepath) (masks : Masks) (cfg : Config) (accepts : Str → Bool) (path : Str) where
  -- The hits of a path: its events that are not skipped and whose bits are known.
  abbrev pub hits : List Arrival → List Hit
  hits [] = []
  hits (a ∷ as') =
      let rest = hits as' in
      if str_eq a.name path
      then (if should_ignore fp cfg a.name
          then rest
          else known_hit (normalize_op masks a.op) a.now rest)
      else rest

  abbrev pub handle_all : List Arrival → Watcher → Watcher
  handle_all [] w = w
  handle_all (a ∷ as') w = handle_all as' (handle_event fp masks cfg accepts a w)

  pended : Option Event → Hit → Option Event
  pended o (op, t) = some (record { path = path; op = merge_pending o op; when = t + debounce })

  after_hits : Option Event → List Hit → Option Event
  after_hits o [] = o
  after_hits o (h ∷ hs) = after_hits (pended o h) hs

  get-remember :
      (name : Str) (now : Time) (op : Op) (pending : Dict Event)
      → get (remember name now op pending) path
        ≡ (if str_eq name path then pended (get pending path) (op, now) else get pending path)
  unfolding pended
  get-remember name now op pending = elim (Bool-cases (str_eq name path)) [
    | inl e ↦ rw (get-put, (str_eq_iff name path).0 e, str_eq_refl path) refl
    | inr e ↦ rw (get-put, e) refl
  ]

  -- the hits of one event that is not skipped
  get-remember_known :
      (name : Str) (now : Time) (op : Op) (pending : Dict Event) (rest : List Hit)
      → after_hits (get (remember_known name now op pending) path) rest
        ≡ after_hits (get pending path) (if str_eq name path then known_hit op now rest else rest)
  unfolding after_hits
  get-remember_known name now unknown pending rest = ground arith
  get-remember_known name now op pending rest = rw (get-remember name now _ pending) (ground arith)

  get-handle_event :
      (a : Arrival) (rest : List Arrival) (w : Watcher)
      → after_hits (get (handle_event fp masks cfg accepts a w).pending path) (hits rest)
        ≡ after_hits (get w.pending path) (hits (a ∷ rest))
  unfolding handle_event
  get-handle_event a rest w = elim (Bool-cases (should_ignore fp cfg a.name)) [
    | inl e ↦ rw e (ground arith)
    | inr e ↦ rw e (get-remember_known a.name a.now (normalize_op masks a.op) w.pending (hits rest))
  ]

  get-handle_all :
      (as' : List Arrival) (w : Watcher)
      → get (handle_all as' w).pending path ≡ after_hits (get w.pending path) (hits as')
  unfolding after_hits
  get-handle_all [] w = refl
  get-handle_all (a ∷ as') w =
      get-handle_all as' (handle_event fp masks cfg accepts a w) ∙ get-handle_event a as' w

  merge_pending_assoc :
      (o : Option Event) (a b : Op)
      → merge_op (merge_pending o a) b ≡ merge_pending o (merge_op a b)
  merge_pending_assoc none a b = refl
  merge_pending_assoc (some e) a b = merge_op_assoc e.op a b

  -- What a burst leaves pending: the strongest of the old operation and the new ones, due a
  -- debounce time after the last of them.
  abbrev pub burst : Option Event → List Hit → Option Event
  burst o [] = o
  burst o ((op, t) ∷ hs) = some (record {
    path = path;
    op = merge_pending o (merge_op op (strongest (map (λ (h : Hit). h.0) hs)));
    when = last_time (op, t) hs + debounce;
  })

  after-pended :
      (o : Option Event) (h : Hit) (hs : List Hit) → after_hits (pended o h) hs ≡ burst o (h ∷ hs)
  unfolding after_hits pended
  after-pended o (op, t) [] = rw (← merge_pending_assoc, merge_op_unknown) refl
  after-pended o (op, t) ((op', t') ∷ hs) =
      after-pended (pended o (op, t)) (op', t') hs
      ∙ ap (λ m. some (record { path = path; op = m; when = last_time (op', t') hs + debounce }))
          (merge_pending_assoc o op (merge_op op' (strongest (map (λ (h : Hit). h.0) hs))))

  after_hits-eq-burst : (o : Option Event) (hs : List Hit) → after_hits o hs ≡ burst o hs
  unfolding after_hits
  after_hits-eq-burst o [] = refl
  after_hits-eq-burst o (h ∷ hs) = after-pended o h hs

  after_hits-append :
      (o : Option Event) (xs ys : List Hit)
      → after_hits (after_hits o xs) ys ≡ after_hits o (xs ++ ys)
  unfolding after_hits
  after_hits-append o [] ys = refl
  after_hits-append o (x ∷ xs) ys = after_hits-append (pended o x) xs ys

  -- One burst after another is one burst.
  pub burst-append :
      (o : Option Event) (xs ys : List Hit) → burst (burst o xs) ys ≡ burst o (xs ++ ys)
  burst-append o xs ys =
      ap (λ x. burst x ys) (sym (after_hits-eq-burst o xs))
      ∙ sym (after_hits-eq-burst (after_hits o xs) ys)
      ∙ after_hits-append o xs ys
      ∙ after_hits-eq-burst o (xs ++ ys)

  -- After any events, what is pending for a path is what was pending before, merged with the
  -- strongest operation of the path's events that are not skipped and whose bits are known, and
  -- due 300 ms after the last of these; with no such event it is what it was.
  pub pending-burst :
      (as' : List Arrival) (w : Watcher)
      → get (handle_all as' w).pending path ≡ burst (get w.pending path) (hits as')
  pending-burst as' w = get-handle_all as' w ∙ after_hits-eq-burst (get w.pending path) (hits as')

abbrev Below : Op → Op → Type 0
Below top o = priority o ≤ priority top

strongest-mem : (o : Op) (os : List Op) → Memᴰ (strongest (o ∷ os)) (o ∷ os)
strongest-mem o [] = Memᴰ.head (merge_op_unknown o)
strongest-mem o (p ∷ os) = elim (merge_op_choice o (strongest (p ∷ os))) [
  | inl e ↦ Memᴰ.head e
  | inr e ↦ rw e (Memᴰ.tail (strongest-mem p os))
]

strongest-Below : (os : List Op) → All (Below (strongest os)) os
strongest-Below [] = tt
strongest-Below (o ∷ os) =
    let (left, right) = merge_op_upper o (strongest os) in
    (left, All-mono os (λ p (h : Below (strongest os) p). le_trans h right) (strongest-Below os))

-- The strongest of some operations is one of them, and none of them has a higher priority.
pub strongest-max :
    (o : Op) (os : List Op)
    → Memᴰ (strongest (o ∷ os)) (o ∷ os)
      × All (λ p. priority p ≤ priority (strongest (o ∷ os))) (o ∷ os)
strongest-max o os = (strongest-mem o os, strongest-Below (o ∷ os))
