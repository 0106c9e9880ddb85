-- ===== src/Daemon/Pipeline/Shown.antt =====
-- What the terminal shows of the events on their way through the daemon.
use googlysync.Prelude.{
  ℕ, ◌+◌, ◌≤◌, Bool, true, false, lit, ◌≡◌, refl, sym, ap, subst, ◌∙◌, Option, none, some, List, [],
  ◌∷◌, ◌++◌, Str, if◌then◌else◌, Time, Bool-cases, inl, inr, length, last, map, or_now, ok,
}
use googlysync.Config.{Config}
use googlysync.Status
use googlysync.Status.{Store, add_event, update, brief, error}
use googlysync.Status.Ring.{trim-eq-last}
use googlysync.Status.Keeping.{Bounded, Keeps, Keeps-same, Keeps-Bounded, Keeps-trans}
use googlysync.Status.History.{stamped}
use googlysync.Status.Calls
use googlysync.Fswatch.Ops.{Masks, op_string}
use googlysync.Fswatch.Paths.{Filepath, should_ignore, path_rel}
use googlysync.Fswatch.Watcher
use googlysync.Fswatch.Watcher.{Event, collect, handle_event}
use googlysync.Fswatch.Watcher.Emit.{shown, status-flush_pending}
use googlysync.Sync.Queue.{Queue, receive}
use googlysync.Sync.Engine
use googlysync.Sync.Engine.{run-IsQuiet}
use googlysync.Ipc.{Protobuf, map_state, get_status}
use googlysync.Tui.{status_msg}
use googlysync.Tui.Answer.{answer, state_name, shown_event, answer-get_status}
use googlysync.Daemon.Pipeline.{
  Pipe, Action, watches, forwarder_receives, forwarder_enqueues, engine_receives, engine_ticks,
  engine_stops, taken, put, given, or_store, engine_turn, act, act_all,
}

Keeps-engine :
    (i : Engine.Input) (s : Store)
    → Bounded s
    → Keeps s (or_store s (Engine.run (i ∷ []) (some s))) []
Keeps-engine i s b =
    let (t, e, q) = run-IsQuiet i [] s in
    subst (λ o. Keeps s (or_store s o) []) (sym e) (Keeps-same s t b q.max_events q.events)

module _ (fp : Filepath) (masks : Masks) (cfg : Config) (accepts : Str → Bool) where
  -- the events of the status that a flush of events shows
  abbrev pub shown_events : (ℕ → Time) → ℕ → List Event → List Status.Event
  shown_events clock i [] = []
  shown_events clock i (e ∷ es) =
      stamped
        (record { op = op_string e.op; path = path_rel fp e.path cfg.sync_root; when = e.when })
        (clock i)
      ∷ shown_events clock (i + 2) es

  Keeps-shown :
      (clock : ℕ → Time) (i : ℕ) (es : List Event) (s : Store)
      → Bounded s
      → Keeps s (Calls.run s (shown fp masks cfg accepts clock i es)) (shown_events clock i es)
  unfolding Calls.run Calls.step add_event
  Keeps-shown clock i [] s b = Keeps-same s s b refl refl
  Keeps-shown clock i (e ∷ es) s b =
      let evt : Status.Event = record {
        op = op_string e.op;
        path = path_rel fp e.path cfg.sync_root;
        when = e.when;
      } in
      let s' = add_event evt (clock i) (clock (i + 1)) s in
      let one : List Status.Event = stamped evt (clock i) ∷ [] in
      let k : Keeps s s' one = (refl, trim-eq-last s.max_events (s.event_ring ++ one)) in
      Keeps-trans s s' (Calls.run s' (shown fp masks cfg accepts clock (i + 2) es)) one
        (shown_events clock (i + 2) es) k
        (Keeps-shown clock (i + 2) es s' (Keeps-Bounded s s' one k))

  abbrev pub shown_by_turn : Watcher.Input → Watcher.Watcher → List Status.Event
  shown_by_turn (Watcher.Input.raw_event a) w = []
  shown_by_turn (Watcher.Input.raw_error now) w = []
  shown_by_turn (Watcher.Input.ticks clock order) w =
      shown_events clock 1 (collect (clock 0) order w.pending).0
  shown_by_turn Watcher.Input.closed w = []
  shown_by_turn Watcher.Input.cancelled w = []

  status-handle_event :
      (a : Watcher.Arrival) (w : Watcher.Watcher)
      → (handle_event fp masks cfg accepts a w).status ≡ w.status
  unfolding handle_event
  status-handle_event a w = elim (Bool-cases (should_ignore fp cfg a.name)) [
    | inl e ↦ rw e refl
    | inr e ↦ rw e refl
  ]

  Keeps-turn :
      (i : Watcher.Input) (w : Watcher.Watcher)
      → Bounded w.status
      → Keeps w.status (Watcher.run fp masks cfg accepts (i ∷ []) w).status (shown_by_turn i w)
  unfolding Watcher.run update brief
  Keeps-turn (Watcher.Input.raw_event a) w b =
      subst (λ t. Keeps w.status t []) (sym (status-handle_event a w))
        (Keeps-same w.status w.status b refl refl)
  Keeps-turn (Watcher.Input.raw_error now) w b =
      Keeps-same w.status (update (brief error (lit "fswatch error")) now w.status) b refl refl
  Keeps-turn (Watcher.Input.ticks clock order) w b =
      subst (λ t. Keeps w.status t (shown_events clock 1 (collect (clock 0) order w.pending).0))
        (sym (status-flush_pending fp masks cfg accepts clock order w))
        (Keeps-shown clock 1 (collect (clock 0) order w.pending).0 w.status b)
  Keeps-turn Watcher.Input.closed w b = Keeps-same w.status w.status b refl refl
  Keeps-turn Watcher.Input.cancelled w b = Keeps-same w.status w.status b refl refl

  -- what an action shows in the status
  abbrev pub shown_by : Action → Pipe → List Status.Event
  shown_by (watches i) s = if s.watching then shown_by_turn i s.watcher else []
  shown_by forwarder_receives s = []
  shown_by forwarder_enqueues s = []
  shown_by (engine_receives before after) s = []
  shown_by (engine_ticks before after) s = []
  shown_by (engine_stops now) s = []

  -- what a run of actions shows
  abbrev pub shown_by_all : List Action → Pipe → List Status.Event
  shown_by_all [] s = []
  shown_by_all (a ∷ as') s = shown_by a s ++ shown_by_all as' (act fp masks cfg accepts a s)

  abbrev Shows : Pipe → Pipe → List Status.Event → Type 0
  Shows s t es = Keeps s.watcher.status t.watcher.status es

  nothing_shown :
      (s t : Pipe) → Bounded s.watcher.status → t.watcher.status ≡ s.watcher.status → Shows s t []
  nothing_shown s t b e =
      Keeps-same s.watcher.status t.watcher.status b (ap (λ x. x.max_events) e)
        (ap (λ x. x.event_ring) e)

  Shows-taken :
      (s : Pipe) (h : Option Event) (out : List Event)
      → Bounded s.watcher.status
      → Shows s (taken s h out) []
  Shows-taken s none [] b = nothing_shown s s b refl
  Shows-taken s none (e ∷ es) b = nothing_shown s (taken s none (e ∷ es)) b refl
  Shows-taken s (some h) out b = nothing_shown s s b refl

  Shows-put : (s : Pipe) (h : Option Event) → Bounded s.watcher.status → Shows s (put s h) []
  Shows-put s none b = nothing_shown s s b refl
  Shows-put s (some e) b = nothing_shown s (put s (some e)) b refl

  Shows-given :
      (s : Pipe) (before after : Time) (o : Option (Event × Queue))
      → Bounded s.watcher.status
      → Shows s (given s before after o) []
  Shows-given s before after none b = nothing_shown s s b refl
  Shows-given s before after (some (e, q)) b =
      Keeps-engine (Engine.Input.event e before after) s.watcher.status b

  Shows-if :
      (s t : Pipe) (go : Bool) (es : List Status.Event)
      → Bounded s.watcher.status
      → Shows s t es
      → Shows s (if go then t else s) (if go then es else [])
  Shows-if s t true es b k = k
  Shows-if s t false es b k = nothing_shown s s b refl

  Shows-when :
      (s t : Pipe) (go : Bool)
      → Bounded s.watcher.status
      → Shows s t []
      → Shows s (if go then t else s) []
  Shows-when s t true b k = k
  Shows-when s t false b k = nothing_shown s s b refl

  Shows-act :
      (a : Action) (s : Pipe)
      → Bounded s.watcher.status
      → Shows s (act fp masks cfg accepts a s) (shown_by a s)
  unfolding act
  Shows-act (watches i) s b = Shows-if s _ s.watching _ b (Keeps-turn i s.watcher b)
  Shows-act forwarder_receives s b = Shows-taken s s.held s.watcher.out b
  Shows-act forwarder_enqueues s b = Shows-put s s.held b
  Shows-act (engine_receives before after) s b =
      Shows-when s (given s before after (receive s.queue)) s.syncing b
        (Shows-given s before after (receive s.queue) b)
  Shows-act (engine_ticks before after) s b =
      Shows-when s (engine_turn (Engine.Input.tick before after) s) s.syncing b
        (Keeps-engine (Engine.Input.tick before after) s.watcher.status b)
  Shows-act (engine_stops now) s b =
      Shows-when s (record (engine_turn (Engine.Input.cancelled now) s) { syncing = false })
        s.syncing b (Keeps-engine (Engine.Input.cancelled now) s.watcher.status b)

  Shows-act_all :
      (as' : List Action) (s : Pipe)
      → Bounded s.watcher.status
      → Shows s (act_all fp masks cfg accepts as' s) (shown_by_all as' s)
  Shows-act_all [] s b = nothing_shown s s b refl
  Shows-act_all (a ∷ as') s b =
      let next = act fp masks cfg accepts a s in
      let k = Shows-act a s b in
      Keeps-trans s.watcher.status next.watcher.status
        (act_all fp masks cfg accepts as' next).watcher.status (shown_by a s)
        (shown_by_all as' next) k
        (Shows-act_all as' next
          (Keeps-Bounded s.watcher.status next.watcher.status (shown_by a s) k))

  -- However the goroutines of the daemon take their steps from a status that keeps no more events than
  -- it may: the message that a poll which the daemon answers gives the terminal's model holds, of the
  -- events that the status kept at first and all those that the watcher has flushed since, in that
  -- order, the newest, as many as the status may keep, whether or not a channel has lost them.
  pub polled :
      (pb : Protobuf) (as' : List Action) (s : Pipe) (now : Time)
      → length s.watcher.status.event_ring ≤ s.watcher.status.max_events
      → let t = (act_all fp masks cfg accepts as' s).watcher.status in
        answer pb (ok tt) (ok tt) (ok (some (get_status pb t))) now
        ≡ status_msg (record {
          state = state_name (map_state t.snapshot.state);
          message = t.snapshot.message;
          at_time = or_now t.snapshot.updated_at now;
          events = map (shown_event pb) (
              last s.watcher.status.max_events (s.watcher.status.event_ring ++ shown_by_all as' s));
        })
  polled pb as' s now b =
      let t = (act_all fp masks cfg accepts as' s).watcher.status in
      answer-get_status pb t now
      ∙ ap
          (λ es. status_msg (record {
            state = state_name (map_state t.snapshot.state);
            message = t.snapshot.message;
            at_time = or_now t.snapshot.updated_at now;
            events = map (shown_event pb) es;
          }))
          (Shows-act_all as' s b).1
