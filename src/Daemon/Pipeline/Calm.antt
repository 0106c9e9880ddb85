-- ===== src/Daemon/Pipeline/Calm.antt =====
-- Runs of the daemon in which the watcher finds no pause in a burst of events at a path.
use googlysync.Prelude.{
  ℕ, ◌+◌, ◌≤◌, ◌<◌, Bool, true, ◌≡◌, refl, sym, ap, subst, ◌∙◌, Option, none, some, List, [], ◌∷◌,
  ◌++◌, false, Str, str_eq, Time, Bool-cases, inl, inr, if◌then◌else◌, arith,
}
use googlysync.Prelude.Dict.{get}
use googlysync.Config.{Config}
use googlysync.Fswatch.Ops.{Masks}
use googlysync.Fswatch.Paths.{Filepath}
use googlysync.Fswatch.Watcher
use googlysync.Fswatch.Watcher.{Event, Arrival, due, debounce, collect, handle_event, flush_pending}
use googlysync.Fswatch.Watcher.Burst.{Hit, hits, burst, burst-append, last_time, pending-burst}
use googlysync.Fswatch.Watcher.Flush.{
  events_at, meets, kept, flushed, get-collect, events_at-collect,
}
use googlysync.Fswatch.Watcher.Emit.{pending-flush_pending}
use googlysync.Daemon.Pipeline.{
  Pipe, Action, watches, forwarder_receives, forwarder_enqueues, engine_receives, engine_ticks,
  engine_stops, flushes, taken, put, given, watch, act, act_all,
}
use googlysync.Sync.Queue.{Queue}
use googlysync.Daemon.Pipeline.Order.{flushed_by}

pub events_at-append :
    (p : Str) (xs ys : List Event) → events_at p (xs ++ ys) ≡ events_at p xs ++ events_at p ys
events_at-append p [] ys = refl
events_at-append p (x ∷ xs) ys = elim (Bool-cases (str_eq x.path p)) [
  | inl e ↦ rw e (ap (◌∷◌ x) (events_at-append p xs ys))
  | inr e ↦ rw e (events_at-append p xs ys)
]

pub flushed-due :
    (now : Time) (p : Str) (e : Event)
    → e.when ≤ now
    → flushed now p (some e) ≡ record { path = p; op = e.op; when = now } ∷ []
flushed-due now p e h = ground arith

pub act_all-append :
    (fp : Filepath) (masks : Masks) (cfg : Config) (accepts : Str → Bool) (xs ys : List Action)
    (s : Pipe)
    → act_all fp masks cfg accepts (xs ++ ys) s
      ≡ act_all fp masks cfg accepts ys (act_all fp masks cfg accepts xs s)
act_all-append fp masks cfg accepts [] ys s = refl
act_all-append fp masks cfg accepts (x ∷ xs) ys s =
    act_all-append fp masks cfg accepts xs ys (act fp masks cfg accepts x s)

module _ (fp : Filepath) (masks : Masks) (cfg : Config) (accepts : Str → Bool) (path : Str) where
  -- the hits of the path among the events of fsnotify in a run
  abbrev pub hits_of : List Action → List Hit
  hits_of [] = []
  hits_of (watches (Watcher.Input.raw_event a) ∷ as') =
      hits fp masks cfg accepts path (a ∷ []) ++ hits_of as'
  hits_of (a ∷ as') = hits_of as'

  -- The last of some hits is less than 300 ms ago.
  abbrev pub Recent : List Hit → Time → Type 0
  Recent [] now = Unit
  Recent (h ∷ hs) now = now < last_time h hs + debounce

  -- Neither the watcher nor the engine ends, and each tick comes less than 300 ms after the last hit
  -- of the path before it, if there is one.
  abbrev pub Calm : List Hit → List Action → Type 0
  Calm seen [] = Unit
  Calm seen (watches (Watcher.Input.raw_event a) ∷ as') =
      Calm (seen ++ hits fp masks cfg accepts path (a ∷ [])) as'
  Calm seen (watches (Watcher.Input.raw_error now) ∷ as') = Calm seen as'
  Calm seen (watches (Watcher.Input.ticks clock order) ∷ as') =
      Recent seen (clock 0) × Calm seen as'
  Calm seen (watches Watcher.Input.closed ∷ as') = ⊥
  Calm seen (watches Watcher.Input.cancelled ∷ as') = ⊥
  Calm seen (engine_stops now ∷ as') = ⊥
  Calm seen (forwarder_receives ∷ as') = Calm seen as'
  Calm seen (forwarder_enqueues ∷ as') = Calm seen as'
  Calm seen (engine_receives before after ∷ as') = Calm seen as'
  Calm seen (engine_ticks before after ∷ as') = Calm seen as'

  abbrev pub burst_of : List Hit → Option Event
  burst_of seen = burst fp masks cfg accepts path none seen

  pub kept-Recent :
      (now : Time) (seen : List Hit) → Recent seen now → kept now (burst_of seen) ≡ burst_of seen
  kept-Recent now [] r = refl
  kept-Recent now (h ∷ hs) r = ground arith

  pub flushed-Recent :
      (now : Time) (seen : List Hit) → Recent seen now → flushed now path (burst_of seen) ≡ []
  flushed-Recent now [] r = refl
  flushed-Recent now (h ∷ hs) r = ground arith

  -- both loops run, and what is pending for the path is made of the hits seen
  pub record Runs (s : Pipe) (seen : List Hit) : Type 0 where
    pub watching : s.watching ≡ true
    pub syncing : s.syncing ≡ true
    pub pending : get s.watcher.pending path ≡ burst_of seen

  pub Runs-same :
      (s t : Pipe) (seen : List Hit)
      → Runs s seen
      → t.watching ≡ s.watching
      → t.syncing ≡ s.syncing
      → t.watcher.pending ≡ s.watcher.pending
      → Runs t seen
  Runs-same s t seen r w y p = record {
    watching = w ∙ r.watching;
    syncing = y ∙ r.syncing;
    pending = ap (λ m. get m path) p ∙ r.pending;
  }

  pub Runs-chosen :
      (s t : Pipe) (seen : List Hit) (b : Bool)
      → b ≡ true
      → Runs t seen
      → Runs (if b then t else s) seen
  Runs-chosen s t seen b e r = subst (λ x. Runs (if x then t else s) seen) (sym e) r

  pub Runs-taken :
      (s : Pipe) (seen : List Hit) (h : Option Event) (out : List Event)
      → Runs s seen
      → Runs (taken s h out) seen
  Runs-taken s seen none [] r = r
  Runs-taken s seen none (e ∷ es) r = Runs-same s (taken s none (e ∷ es)) seen r refl refl refl
  Runs-taken s seen (some h) out r = r

  pub Runs-put : (s : Pipe) (seen : List Hit) (h : Option Event) → Runs s seen → Runs (put s h) seen
  Runs-put s seen none r = r
  Runs-put s seen (some e) r = Runs-same s (put s (some e)) seen r refl refl refl

  pub Runs-given :
      (s : Pipe) (seen : List Hit) (before after : Time) (o : Option (Event × Queue))
      → Runs s seen
      → Runs (given s before after o) seen
  Runs-given s seen before after none r = r
  Runs-given s seen before after (some (e, q)) r =
      Runs-same s (given s before after (some (e, q))) seen r refl refl refl

  pub Runs-noticed :
      (a : Arrival) (s : Pipe) (seen : List Hit)
      → Runs s seen
      → Runs
          (watch fp masks cfg accepts (Watcher.Input.raw_event a) s)
          (seen ++ hits fp masks cfg accepts path (a ∷ []))
  unfolding Watcher.run
  Runs-noticed a s seen r =
      let new = hits fp masks cfg accepts path (a ∷ []) in
      record {
        watching = refl;
        syncing = r.syncing;
        pending =
            pending-burst fp masks cfg accepts path (a ∷ []) s.watcher
            ∙ ap (λ o. burst fp masks cfg accepts path o new) r.pending
            ∙ burst-append fp masks cfg accepts path none seen new;
      }

  pub Runs-ticked :
      (clock : ℕ → Time) (order : List Str) (s : Pipe) (seen : List Hit)
      → Runs s seen
      → Recent seen (clock 0)
      → Runs (watch fp masks cfg accepts (Watcher.Input.ticks clock order) s) seen
  unfolding Watcher.run
  Runs-ticked clock order s seen r t = record {
    watching = refl;
    syncing = r.syncing;
    pending =
        ap (λ m. get m path) (pending-flush_pending fp masks cfg accepts clock order s.watcher)
        ∙ get-collect (clock 0) path order s.watcher.pending
        ∙ rw (r.pending, kept-Recent (clock 0) seen t) (same_branches (meets order path));
  }
    where
      same_branches : (b : Bool) → (if b then burst_of seen else burst_of seen) ≡ burst_of seen
      same_branches true = refl
      same_branches false = refl

  -- a turn of the watcher that flushes nothing at the path
  pub before_rest :
      (i : Watcher.Input) (s : Pipe) (rest : List Event)
      → s.watching ≡ true
      → events_at path (flushes i s.watcher) ≡ []
      → events_at path (flushed_by (watches i) s ++ rest) ≡ events_at path rest
  before_rest i s rest w f =
      let e : flushed_by (watches i) s ≡ flushes i s.watcher = rw w refl in
      events_at-append path (flushed_by (watches i) s) rest
      ∙ ap (λ es. events_at path es ++ events_at path rest) e
      ∙ ap (λ es. es ++ events_at path rest) f

  pub flushes-Recent :
      (clock : ℕ → Time) (order : List Str) (s : Pipe) (seen : List Hit)
      → Runs s seen
      → Recent seen (clock 0)
      → events_at path (flushes (Watcher.Input.ticks clock order) s.watcher) ≡ []
  flushes-Recent clock order s seen r t =
      events_at-collect (clock 0) path order s.watcher.pending
      ∙ rw (r.pending, flushed-Recent (clock 0) seen t) (nothing (meets order path))
    where
      no_events : List Event
      no_events = []

      nothing : (b : Bool) → (if b then no_events else no_events) ≡ no_events
      nothing true = refl
      nothing false = refl
