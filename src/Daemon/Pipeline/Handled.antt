-- ===== src/Daemon/Pipeline/Handled.antt =====
-- A burst of events at a path, from fsnotify to the engine.
use googlysync.Prelude.{
  ℕ, ◌+◌, ◌≤◌, ◌<◌, Bool, true, ◌≡◌, refl, sym, ap, ◌∙◌, none, some, List, [], ◌∷◌, ◌++◌,
  append_assoc, append-nil, map, Str, Time, length, length-append, if◌then◌else◌, arith,
}
use googlysync.Prelude.Dict.{get}
use googlysync.Config.{Config}
use googlysync.Fswatch.Ops.{Masks}
use googlysync.Fswatch.Paths.{Filepath}
use googlysync.Fswatch.Watcher
use googlysync.Fswatch.Watcher.{Event, Arrival, due, debounce, collect, handle_event, flush_pending}
use googlysync.Fswatch.Watcher.Burst.{Hit, hits, strongest, last_time}
use googlysync.Fswatch.Watcher.Flush.{events_at, meets, events_at-collect}
use googlysync.Daemon.Pipeline.{
  Pipe, Action, watches, forwarder_receives, forwarder_enqueues, engine_receives, engine_ticks,
  engine_stops, flushes, given, engine_turn, watch, act, act_all,
}
use googlysync.Sync.Engine
use googlysync.Sync.Queue.{receive}
use googlysync.Daemon.Pipeline.Order.{inside, contents, flushed_by, flushed_by_all}
use googlysync.Daemon.Pipeline.Burst.{FitsIn, length-inside, act_all-burst, act_all_grows}
use googlysync.Daemon.Pipeline.Drain.{rounds, drain, IsDrained}
use googlysync.Daemon.Pipeline.Calm.{
  events_at-append, flushed-due, act_all-append, hits_of, Calm, burst_of, Runs, Runs-same,
  Runs-chosen, Runs-taken, Runs-put, Runs-given, Runs-noticed, Runs-ticked, before_rest,
  flushes-Recent,
}

module _ (fp : Filepath) (masks : Masks) (cfg : Config) (accepts : Str → Bool) (path : Str) where
  -- what the engine is handed
  abbrev result : Time → List Hit → Event
  result now hs = record { path = path; op = strongest (map (λ (k : Hit). k.0) hs); when = now }

  module _ (clock : ℕ → Time) (order : List Str) (h : Hit) (hs : List Hit)
      (late : last_time h hs + debounce ≤ clock 0) (met : meets order path ≡ true) where
    abbrev last_tick : List Action
    last_tick = watches (Watcher.Input.ticks clock order) ∷ []

    abbrev Ends : List Action → Pipe → Type 0
    Ends as' s =
        (events_at path (flushed_by_all fp masks cfg accepts (as' ++ last_tick) s)
          ≡ result (clock 0) (h ∷ hs) ∷ [])
        × ((act_all fp masks cfg accepts (as' ++ last_tick) s).syncing ≡ true)

    Ends-turn :
        (i : Watcher.Input) (as' : List Action) (s : Pipe)
        → s.watching ≡ true
        → events_at path (flushes i s.watcher) ≡ []
        → Ends as' (watch fp masks cfg accepts i s)
        → Ends (watches i ∷ as') s
    unfolding act
    Ends-turn i as' s w f (e, y) =
        let next : (if s.watching then watch fp masks cfg accepts i s else s)
            ≡ watch fp masks cfg accepts i s =
          rw w refl in
        (
          before_rest fp masks cfg accepts path i s _ w f
              ∙ ap (λ t. events_at path (flushed_by_all fp masks cfg accepts (as' ++ last_tick) t))
                  next
              ∙ e,
          ap (λ t. (act_all fp masks cfg accepts (as' ++ last_tick) t).syncing) next ∙ y,
        )

    ends :
        (as' : List Action) (seen : List Hit) (s : Pipe)
        → Runs fp masks cfg accepts path s seen
        → Calm fp masks cfg accepts path seen as'
        → seen ++ hits_of fp masks cfg accepts path as' ≡ h ∷ hs
        → Ends as' s
    unfolding act Watcher.run
    ends [] seen s r c e =
        let due_event : Event = record {
          path = path;
          op = strongest (map (λ (k : Hit). k.0) (h ∷ hs));
          when = last_time h hs + debounce;
        } in
        let all : seen ≡ h ∷ hs = sym (append-nil seen) ∙ e in
        let pending : get s.watcher.pending path ≡ some due_event =
          r.pending ∙ ap (burst_of fp masks cfg accepts path) all in
        let ready = (collect (clock 0) order s.watcher.pending).0 in
        let by_tick : flushed_by (watches (Watcher.Input.ticks clock order)) s ≡ ready =
          rw (r.watching) refl in
        (
          ap (λ es. events_at path (es ++ [])) by_tick
              ∙ ap (events_at path) (append-nil ready)
              ∙ events_at-collect (clock 0) path order s.watcher.pending
              ∙ rw (met, pending) (flushed-due (clock 0) path due_event late),
          rw (r.watching) r.syncing,
        )
    ends (watches (Watcher.Input.raw_event a) ∷ as') seen s r c e =
        Ends-turn (Watcher.Input.raw_event a) as' s r.watching refl (
          ends as' (seen ++ hits fp masks cfg accepts path (a ∷ [])) _
            (Runs-noticed fp masks cfg accepts path a s seen r) c
            (append_assoc seen (hits fp masks cfg accepts path (a ∷ []))
                (hits_of fp masks cfg accepts path as')
              ∙ e))
    ends (watches (Watcher.Input.raw_error now) ∷ as') seen s r c e =
        Ends-turn (Watcher.Input.raw_error now) as' s r.watching refl (
          ends as' seen _
            (Runs-same fp masks cfg accepts path s
              (watch fp masks cfg accepts (Watcher.Input.raw_error now) s) seen r (sym r.watching)
              refl refl)
            c e)
    ends (watches (Watcher.Input.ticks clock' order') ∷ as') seen s r (t, c) e =
        Ends-turn (Watcher.Input.ticks clock' order') as' s r.watching
          (flushes-Recent fp masks cfg accepts path clock' order' s seen r t)
          (ends as' seen _ (Runs-ticked fp masks cfg accepts path clock' order' s seen r t) c e)
    ends (watches Watcher.Input.closed ∷ as') seen s r c e = elim c [ ]
    ends (watches Watcher.Input.cancelled ∷ as') seen s r c e = elim c [ ]
    ends (engine_stops now ∷ as') seen s r c e = elim c [ ]
    ends (forwarder_receives ∷ as') seen s r c e =
        ends as' seen _ (Runs-taken fp masks cfg accepts path s seen s.held s.watcher.out r) c e
    ends (forwarder_enqueues ∷ as') seen s r c e =
        ends as' seen _ (Runs-put fp masks cfg accepts path s seen s.held r) c e
    ends (engine_receives before after ∷ as') seen s r c e =
        ends as' seen _
          (Runs-chosen fp masks cfg accepts path s (given s before after (receive s.queue)) seen
            s.syncing r.syncing
            (Runs-given fp masks cfg accepts path s seen before after (receive s.queue) r))
          c e
    ends (engine_ticks before after ∷ as') seen s r c e =
        ends as' seen _
          (Runs-chosen fp masks cfg accepts path s (engine_turn (Engine.Input.tick before after) s)
            seen s.syncing r.syncing
            (Runs-same fp masks cfg accepts path s (engine_turn (Engine.Input.tick before after) s)
              seen r refl refl refl))
          c e

  -- However the goroutines of a running daemon take their steps, for a path for which nothing is
  -- pending: let events of fsnotify, among others, hit the path, that is, be at it, not skipped and of
  -- known bits, and let the ticks of the watcher, which may come at any time, find no pause of 300 ms
  -- after a hit before the last. With a tick that meets the path and comes at least 300 ms after the
  -- last hit, and then rounds of the engine's and the forwarder's steps, the engine has been handed,
  -- beside what was on its way, exactly one event at the path: with the strongest operation of the
  -- hits, at the time of that tick. What was on its way and all that is flushed must together be no
  -- more events than 256, no more than the queue holds, and fewer than the rounds.
  pub handled_once :
      (clock : ℕ → Time) (order : List Str) (as' : List Action) (s : Pipe) (h : Hit) (hs : List Hit)
      (i n : ℕ)
      → s.watching ≡ true
      → s.syncing ≡ true
      → get s.watcher.pending path ≡ none
      → Calm fp masks cfg accepts path [] as'
      → hits_of fp masks cfg accepts path as' ≡ h ∷ hs
      → last_time h hs + debounce ≤ clock 0
      → meets order path ≡ true
      → 0 < s.queue.capacity
      → (let coming =
            length (inside s)
            + length (
                flushed_by_all fp masks cfg accepts
                  (as' ++ watches (Watcher.Input.ticks clock order) ∷ [])
                  s) in
          FitsIn s coming × (coming < n))
      → events_at path
          (act_all fp masks cfg accepts
            (as' ++ watches (Watcher.Input.ticks clock order) ∷ [] ++ rounds clock i n)
            s).handled
        ≡ events_at path (contents s)
          ++ record {
            path = path;
            op = strongest (map (λ (k : Hit). k.0) (h ∷ hs));
            when = clock 0;
          }
            ∷ []
  handled_once clock order as' s h hs i n w y fresh calm seen late met room (fit, few) =
      let all = as' ++ watches (Watcher.Input.ticks clock order) ∷ [] in
      let t = act_all fp masks cfg accepts all s in
      let out = flushed_by_all fp masks cfg accepts all s in
      let (one, syncing) =
        ends clock order h hs late met as' [] s
          (record { watching = w; syncing = y; pending = fresh }) calm seen in
      let kept_all : contents t ≡ contents s ++ out =
        act_all-burst fp masks cfg accepts all s fit in
      let (c, g) = act_all_grows fp masks cfg accepts all s in
      let n_inside : length (inside t) ≤ length (inside s) + length out = omega (
        arith,
        g,
        ap length kept_all,
        length-append (contents s) out,
        length-append t.handled (inside t),
        length-append s.handled (inside s),
      ) in
      let drained : IsDrained (act_all fp masks cfg accepts (rounds clock i n) t) (contents t) =
        drain fp masks cfg accepts clock i n t syncing (omega (arith, c, room))
          (omega (arith, c, n_inside, fit.1, length-inside t)) (omega (arith, n_inside, few)) in
      ap (λ x. events_at path x.handled)
        (act_all-append fp masks cfg accepts all (rounds clock i n) s)
      ∙ ap (events_at path) (drained.0 ∙ kept_all)
      ∙ events_at-append path (contents s) out
      ∙ ap (λ es. events_at path (contents s) ++ es) one
