-- ===== src/Daemon/Pipeline/Order.antt =====
-- The order in which events pass through the daemon.
use googlysync.Prelude.{
  ℕ, ltb, Bool, true, false, ◌≡◌, refl, sym, ap, subst, ◌∙◌, Option, none, some, List, [], ◌∷◌,
  ◌++◌, append-nil, append_assoc, take, take-nil, Str, if◌then◌else◌, Time, Bool-cases, inl, inr,
  length, arith,
}
use googlysync.Prelude.Channel.{offer}
use googlysync.Prelude.Sublists.{
  Sub, Sub-refl, Sub-trans, Sub-append_left, Sub-append_right, take-Sub, Sub-snoc,
}
use googlysync.Config.{Config}
use googlysync.Fswatch.Ops.{Masks}
use googlysync.Fswatch.Paths.{Filepath}
use googlysync.Fswatch.Watcher
use googlysync.Fswatch.Watcher.{Event, Watcher, handle_event}
use googlysync.Fswatch.Watcher.Emit.{room, out-flush_pending}
use googlysync.Sync.Queue.{enqueue, receive}
use googlysync.Daemon.Pipeline.{
  Pipe, Action, watches, forwarder_receives, forwarder_enqueues, engine_receives, engine_ticks,
  engine_stops, flushes, taken, put, given, watch, act, act_all,
}

abbrev pub held_list : Option Event → List Event
held_list none = []
held_list (some e) = e ∷ []

-- what waits between the watcher and the engine, the oldest first
abbrev pub inside : Pipe → List Event
inside s = s.queue.waiting ++ (held_list s.held ++ s.watcher.out)

-- what the engine has handled and what is on its way to it
abbrev pub contents : Pipe → List Event
contents s = s.handled ++ inside s

-- what an action flushes into the watcher's channel
abbrev pub flushed_by : Action → Pipe → List Event
flushed_by (watches i) s = if s.watching then flushes i s.watcher else []
flushed_by forwarder_receives s = []
flushed_by forwarder_enqueues s = []
flushed_by (engine_receives before after) s = []
flushed_by (engine_ticks before after) s = []
flushed_by (engine_stops now) s = []

pub contents-taken :
    (s : Pipe) (h : Option Event) (es : List Event)
    → s.held ≡ h
    → s.watcher.out ≡ es
    → contents (taken s h es) ≡ contents s
contents-taken s none (e ∷ es) h o = rw (h, o) refl
contents-taken s none [] h o = refl
contents-taken s (some e) es h o = refl

contents-given :
    (s : Pipe) (before after : Time) (es : List Event)
    → s.queue.waiting ≡ es
    → contents (given s before after (receive s.queue)) ≡ contents s
unfolding receive
contents-given s before after [] h = rw (receive, h) refl
contents-given s before after (e ∷ es) h =
    rw (receive, h) (append_assoc s.handled (e ∷ []) (es ++ (held_list s.held ++ s.watcher.out)))

pub contents-receives :
    (s : Pipe) (before after : Time) (b : Bool)
    → contents (if b then given s before after (receive s.queue) else s) ≡ contents s
contents-receives s before after true = contents-given s before after s.queue.waiting refl
contents-receives s before after false = refl

regroup :
    (as' bs cs ds es : List Event)
    → as' ++ (bs ++ (cs ++ (ds ++ es))) ≡ (as' ++ (bs ++ (cs ++ ds))) ++ es
regroup as' bs cs ds es = simp append_assoc

Sub-none : (xs ys : List Event) → Sub ys xs → Sub ys (xs ++ [])
Sub-none xs ys h = subst (Sub ys) (sym (append-nil xs)) h

Sub-same : (xs ys : List Event) → ys ≡ xs → Sub ys (xs ++ [])
Sub-same xs ys e = Sub-none xs ys (subst (λ zs. Sub zs xs) (sym e) (Sub-refl xs))

offer-Sub : (cap : ℕ) (xs : List Event) (e : Event) → Sub (offer cap xs e) (xs ++ e ∷ [])
unfolding offer
offer-Sub cap xs e = elim (Bool-cases (ltb (length xs) cap)) [
  | inl h ↦ rw h (Sub-refl (xs ++ e ∷ []))
  | inr h ↦ rw h (Sub-snoc xs e)
]

put-Sub : (s : Pipe) (h : Option Event) → s.held ≡ h → Sub (contents (put s h)) (contents s)
unfolding enqueue
put-Sub s none h = Sub-refl (contents s)
put-Sub s (some e) h =
    let q = s.queue in
    rw h (
      Sub-append_left s.handled _ _ (
        subst (Sub (offer q.capacity q.waiting e ++ s.watcher.out))
          (append_assoc q.waiting (e ∷ []) s.watcher.out)
          (Sub-append_right (offer q.capacity q.waiting e) (q.waiting ++ e ∷ []) s.watcher.out
            (offer-Sub q.capacity q.waiting e))))

nothing_flushed : (w : Watcher) {out : List Event} → out ≡ w.out → out ≡ w.out ++ take (room w) []
nothing_flushed w h = h ∙ sym (append-nil w.out) ∙ ap (◌++◌ w.out) (sym (take-nil (room w)))

module _ (fp : Filepath) (masks : Masks) (cfg : Config) (accepts : Str → Bool) where
  out-run :
      (i : Watcher.Input) (w : Watcher)
      → (Watcher.run fp masks cfg accepts (i ∷ []) w).out ≡ w.out ++ take (room w) (flushes i w)
  unfolding Watcher.run handle_event
  out-run (Watcher.Input.raw_event a) w = nothing_flushed w (ground arith)
  out-run (Watcher.Input.raw_error now) w = nothing_flushed w refl
  out-run (Watcher.Input.ticks clock order) w = out-flush_pending fp masks cfg accepts clock order w
  out-run Watcher.Input.closed w = nothing_flushed w refl
  out-run Watcher.Input.cancelled w = nothing_flushed w refl

  pub contents-watch :
      (i : Watcher.Input) (s : Pipe)
      → contents (watch fp masks cfg accepts i s)
        ≡ contents s ++ take (room s.watcher) (flushes i s.watcher)
  contents-watch i s =
      ap (λ out. s.handled ++ (s.queue.waiting ++ (held_list s.held ++ out))) (out-run i s.watcher)
      ∙ regroup s.handled s.queue.waiting (held_list s.held) s.watcher.out
          (take (room s.watcher) (flushes i s.watcher))

  act-Sub :
      (a : Action) (s : Pipe)
      → Sub (contents (act fp masks cfg accepts a s)) (contents s ++ flushed_by a s)
  unfolding act
  act-Sub (watches i) s = elim (Bool-cases s.watching) [
    | inl e ↦
        rw (e, contents-watch i s)
          (Sub-append_left (contents s) _ _ (take-Sub (room s.watcher) (flushes i s.watcher)))
    | inr e ↦ rw e (Sub-same (contents s) _ refl)
  ]
  act-Sub forwarder_receives s =
      Sub-same (contents s) _ (contents-taken s s.held s.watcher.out refl refl)
  act-Sub forwarder_enqueues s = Sub-none (contents s) _ (put-Sub s s.held refl)
  act-Sub (engine_receives before after) s =
      Sub-same (contents s) _ (contents-receives s before after s.syncing)
  act-Sub (engine_ticks before after) s = Sub-same (contents s) _ (ground arith)
  act-Sub (engine_stops now) s = Sub-same (contents s) _ (ground arith)

  -- what a run of actions flushes, in the order of the flushes
  abbrev pub flushed_by_all : List Action → Pipe → List Event
  flushed_by_all [] s = []
  flushed_by_all (a ∷ as') s = flushed_by a s ++ flushed_by_all as' (act fp masks cfg accepts a s)

  -- However the goroutines take their steps, what the engine has handled, followed by what waits in
  -- the queue, in the forwarder and in the watcher's channel, is what was there at first followed by
  -- what the watcher has flushed, in that order, with some events left out: no event overtakes
  -- another, none is handled twice, and none is handled that was not flushed.
  pub act_all-Sub :
      (as' : List Action) (s : Pipe)
      → Sub (contents (act_all fp masks cfg accepts as' s)) (contents s ++ flushed_by_all as' s)
  act_all-Sub [] s = Sub-same (contents s) _ refl
  act_all-Sub (a ∷ as') s =
      let next = act fp masks cfg accepts a s in
      let rest = flushed_by_all as' next in
      Sub-trans _ (contents next ++ rest) _ (act_all-Sub as' next) (
        subst (Sub (contents next ++ rest)) (append_assoc (contents s) (flushed_by a s) rest)
          (Sub-append_right (contents next) (contents s ++ flushed_by a s) rest (act-Sub a s)))
