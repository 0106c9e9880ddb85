-- ===== src/Fswatch/Watcher/Emit.antt =====
-- `flushPending` of internal/fswatch/fswatch.go: what leaves the watcher, and what is lost.
use googlysync.Prelude.{
  ℕ, ◌+◌, ◌-◌, Bool, true, ◌≡◌, refl, ap, ◌∙◌, List, [], ◌∷◌, ◌++◌, length, take, Str, Time,
}
use googlysync.Prelude.Dict.{get}
use googlysync.Prelude.Channel.{offer_all, offer_all-eq-take}
use googlysync.Config.{Config}
use googlysync.Status.Calls
use googlysync.Fswatch.Ops.{op_string, Masks}
use googlysync.Fswatch.Paths.{Filepath, path_rel}
use googlysync.Fswatch.Watcher.{
  Event, Watcher, out_capacity, collect, emit, emit_all, flush_pending,
}
use googlysync.Fswatch.Watcher.Flush.{
  events_at, meets, kept, flushed, get-collect, events_at-collect,
}

-- the room in the channel
abbrev pub room : Watcher → ℕ
room w = out_capacity - length w.out

module _ (fp : Filepath) (masks : Masks) (cfg : Config) (accepts : Str → Bool) where
  -- the calls on the status store that show the events
  abbrev pub shown : (ℕ → Time) → ℕ → List Event → List Calls.Call
  shown clock i [] = []
  shown clock i (e ∷ es) =
      Calls.Call.adds
        (record { op = op_string e.op; path = path_rel fp e.path cfg.sync_root; when = e.when })
        (clock i) (clock (i + 1))
      ∷ shown clock (i + 2) es

  emit_all_fields :
      (clock : ℕ → Time) (i : ℕ) (es : List Event) (w : Watcher)
      → let w' = emit_all fp masks cfg accepts clock i es w in
        (w'.out ≡ offer_all out_capacity w.out es)
        × (w'.status ≡ Calls.run w.status (shown clock i es))
        × (w'.pending ≡ w.pending)
        × (w'.watched ≡ w.watched)
  unfolding emit_all emit offer_all Calls.run Calls.step
  emit_all_fields clock i [] w = (refl, refl, refl, refl)
  emit_all_fields clock i (e ∷ es) w =
      emit_all_fields clock (i + 2) es (emit fp masks cfg accepts clock i e w)

  -- A flush splits off a list of ready events. Whatever path the loop meets has in that list exactly
  -- its pending event, if it is due, stamped with the time of the flush, and then is no longer
  -- pending; an event that is not due stays pending as it was. The channel takes the first of the
  -- ready events, as many as it has room for, and the others are lost to it; the status shows all.
  pub flush_pending_lem :
      (clock : ℕ → Time) (order : List Str) (w : Watcher)
      → let w' = flush_pending fp masks cfg accepts clock order w in
        (ready : List Event) × ((p : Str)
          → meets order p ≡ true
          → (events_at p ready ≡ flushed (clock 0) p (get w.pending p))
            × (get w'.pending p ≡ kept (clock 0) (get w.pending p)))
        × (w'.out ≡ w.out ++ take (room w) ready)
        × (w'.status ≡ Calls.run w.status (shown clock 1 ready))
  unfolding flush_pending
  flush_pending_lem clock order w =
      let split = collect (clock 0) order w.pending in
      let after = record w { pending = split.1 } in
      let (out, status, pending, _) = emit_all_fields clock 1 split.0 after in
      (
        split.0,
        (λ p m. (
          events_at-collect (clock 0) p order w.pending ∙ rw m refl,
          ap (λ d. get d p) pending ∙ get-collect (clock 0) p order w.pending ∙ rw m refl,
        )),
        out ∙ offer_all-eq-take out_capacity w.out split.0,
        status,
      )

  -- what a flush leaves in the channel
  pub out-flush_pending :
      (clock : ℕ → Time) (order : List Str) (w : Watcher)
      → (flush_pending fp masks cfg accepts clock order w).out
        ≡ w.out ++ take (room w) (collect (clock 0) order w.pending).0
  unfolding flush_pending
  out-flush_pending clock order w =
      let split = collect (clock 0) order w.pending in
      (emit_all_fields clock 1 split.0 (record w { pending = split.1 })).0
      ∙ offer_all-eq-take out_capacity w.out split.0

  -- what a flush makes of the status
  pub status-flush_pending :
      (clock : ℕ → Time) (order : List Str) (w : Watcher)
      → (flush_pending fp masks cfg accepts clock order w).status
        ≡ Calls.run w.status (shown clock 1 (collect (clock 0) order w.pending).0)
  unfolding flush_pending
  status-flush_pending clock order w =
      let split = collect (clock 0) order w.pending in
      (emit_all_fields clock 1 split.0 (record w { pending = split.1 })).1

  -- what a flush leaves pending
  pub pending-flush_pending :
      (clock : ℕ → Time) (order : List Str) (w : Watcher)
      → (flush_pending fp masks cfg accepts clock order w).pending
        ≡ (collect (clock 0) order w.pending).1
  unfolding flush_pending
  pending-flush_pending clock order w =
      let split = collect (clock 0) order w.pending in
      (emit_all_fields clock 1 split.0 (record w { pending = split.1 })).2
