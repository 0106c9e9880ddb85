-- ===== src/Daemon/Pipeline/Burst.antt =====
-- When the daemon loses no event.
use googlysync.Prelude.{
  ℕ, zero, suc, ◌+◌, ◌≤◌, ◌<◌, ltb, ltb→ge, Bool, true, false, ◌≡◌, refl, sym, ap, ◌∙◌, Option,
  none, some, List, [], ◌∷◌, ◌++◌, append-nil, append_assoc, take, Str, if◌then◌else◌, Time,
  Bool-cases, inl, inr, length, length-append, arith,
}
use googlysync.Prelude.Channel.{offer}
use googlysync.Config.{Config}
use googlysync.Fswatch.Ops.{Masks}
use googlysync.Fswatch.Paths.{Filepath}
use googlysync.Fswatch.Watcher.{Event, out_capacity}
use googlysync.Fswatch.Watcher.Emit.{room}
use googlysync.Sync.Queue.{enqueue, receive}
use googlysync.Daemon.Pipeline.{
  Pipe, Action, watches, forwarder_receives, forwarder_enqueues, engine_receives, engine_ticks,
  engine_stops, flushes, taken, put, given, act, act_all,
}
use googlysync.Daemon.Pipeline.Order.{
  inside, contents, held_list, flushed_by, flushed_by_all, contents-watch, contents-taken,
  contents-receives,
}

pub take_all : (n : ℕ) (es : List Event) → length es ≤ n → take n es ≡ es
take_all zero [] h = refl
take_all zero (e ∷ es) h = absurd (omega arith)
take_all (suc n) [] h = refl
take_all (suc n) (e ∷ es) h = ap (◌∷◌ e) (take_all n es (omega arith))

-- the longest burst that is sure to find room
abbrev pub FitsIn : Pipe → ℕ → Type 0
FitsIn s n = (n ≤ out_capacity) × (n ≤ s.queue.capacity)

pub length-inside :
    (s : Pipe)
    → length (inside s)
      ≡ length s.queue.waiting + (length (held_list s.held) + length s.watcher.out)
length-inside s = omega (
  arith,
  length-append s.queue.waiting (held_list s.held ++ s.watcher.out),
  length-append (held_list s.held) s.watcher.out,
)

pub offer_room :
    (cap : ℕ) (xs : List Event) (e : Event) → length xs < cap → offer cap xs e ≡ xs ++ e ∷ []
unfolding offer
offer_room cap xs e h = elim (Bool-cases (ltb (length xs) cap)) [
  | inl t ↦ rw t refl
  | inr t ↦ absurd (omega (arith, ltb→ge (length xs) cap t))
]

contents-put :
    (s : Pipe) (h : Option Event)
    → s.held ≡ h
    → length (inside s) ≤ s.queue.capacity
    → contents (put s h) ≡ contents s
unfolding enqueue
contents-put s none h n = refl
contents-put s (some e) h n =
    let k : length (held_list s.held) ≡ 1 = ap (λ x. length (held_list x)) h in
    let r = offer_room s.queue.capacity s.queue.waiting e (omega (arith, length-inside s)) in
    ap (λ ws. s.handled ++ (ws ++ s.watcher.out)) r
    ∙ ap (λ ws. s.handled ++ ws) (append_assoc s.queue.waiting (e ∷ []) s.watcher.out)
    ∙ sym (ap (λ x. s.handled ++ (s.queue.waiting ++ (held_list x ++ s.watcher.out))) h)

capacity-put : (s : Pipe) (h : Option Event) → (put s h).queue.capacity ≡ s.queue.capacity
unfolding enqueue
capacity-put s none = refl
capacity-put s (some e) = refl

same-taken :
    (s : Pipe) (h : Option Event) (es : List Event)
    → ((taken s h es).queue.capacity ≡ s.queue.capacity) × ((taken s h es).handled ≡ s.handled)
same-taken s none [] = (refl, refl)
same-taken s none (e ∷ es) = (refl, refl)
same-taken s (some h) es = (refl, refl)

handled-put : (s : Pipe) (h : Option Event) → (put s h).handled ≡ s.handled
handled-put s none = refl
handled-put s (some e) = refl

given-grows :
    (s : Pipe) (before after : Time) (es : List Event)
    → s.queue.waiting ≡ es
    → ((given s before after (receive s.queue)).queue.capacity ≡ s.queue.capacity)
      × (length s.handled ≤ length (given s before after (receive s.queue)).handled)
unfolding receive
given-grows s before after [] h = rw (receive, h) (refl, omega arith)
given-grows s before after (e ∷ es) h =
    rw (receive, h) (refl, omega (arith, length-append s.handled (e ∷ [])))

-- what every action does to a pipe: the queue keeps its capacity, and what is handled stays so
Grows : Pipe → Pipe → Type 0
Grows s t = (t.queue.capacity ≡ s.queue.capacity) × (length s.handled ≤ length t.handled)

Grows-refl : (s : Pipe) → Grows s s
unfolding Grows
Grows-refl s = (refl, omega arith)

Grows-if : (s t : Pipe) (b : Bool) → Grows s t → Grows s (if b then t else s)
Grows-if s t true g = g
Grows-if s t false g = Grows-refl s

module _ (fp : Filepath) (masks : Masks) (cfg : Config) (accepts : Str → Bool) where
  contents-act :
      (a : Action) (s : Pipe)
      → FitsIn s (length (inside s) + length (flushed_by a s))
      → contents (act fp masks cfg accepts a s) ≡ contents s ++ flushed_by a s
  unfolding act
  contents-act (watches i) s f = elim (Bool-cases s.watching) [
    | inl e ↦
        let n : length (flushed_by (watches i) s) ≡ length (flushes i s.watcher) = rw e refl in
        let t : take (room s.watcher) (flushes i s.watcher) ≡ flushes i s.watcher =
          take_all (room s.watcher) (flushes i s.watcher) (omega (arith, length-inside s, f.0)) in
        rw (e, contents-watch fp masks cfg accepts i s, t) refl
    | inr e ↦ rw e (sym (append-nil (contents s)))
  ]
  contents-act forwarder_receives s f =
      contents-taken s s.held s.watcher.out refl refl ∙ sym (append-nil (contents s))
  contents-act forwarder_enqueues s f =
      contents-put s s.held refl (omega (arith, f.1)) ∙ sym (append-nil (contents s))
  contents-act (engine_receives before after) s f =
      contents-receives s before after s.syncing ∙ sym (append-nil (contents s))
  contents-act (engine_ticks before after) s f = ground (arith, append-nil (contents s))
  contents-act (engine_stops now) s f = ground (arith, append-nil (contents s))

  act-Grows : (a : Action) (s : Pipe) → Grows s (act fp masks cfg accepts a s)
  unfolding act Grows
  act-Grows (watches i) s = Grows-if s _ s.watching (refl, omega arith)
  act-Grows forwarder_receives s =
      let (c, h) = same-taken s s.held s.watcher.out in (c, omega (arith, ap length h))
  act-Grows forwarder_enqueues s =
      (capacity-put s s.held, omega (arith, ap length (handled-put s s.held)))
  act-Grows (engine_receives before after) s =
      Grows-if s _ s.syncing (given-grows s before after s.queue.waiting refl)
  act-Grows (engine_ticks before after) s = Grows-if s _ s.syncing (refl, omega arith)
  act-Grows (engine_stops now) s = Grows-if s _ s.syncing (refl, omega arith)

  -- The queue keeps its size, and what is handled stays.
  pub act_all_grows :
      (as' : List Action) (s : Pipe)
      → let t = act_all fp masks cfg accepts as' s in
        (t.queue.capacity ≡ s.queue.capacity) × (length s.handled ≤ length t.handled)
  unfolding Grows
  act_all_grows [] s = (refl, omega arith)
  act_all_grows (a ∷ as') s =
      let (c, g) = act-Grows a s in
      let (e, h) = act_all_grows as' (act fp masks cfg accepts a s) in (e ∙ c, omega (arith, g, h))

  -- If what waits at first and what the watcher flushes are together no more events than the
  -- watcher's channel holds, which is 256, and no more than the queue holds, then none is lost,
  -- however the goroutines take their steps: each is handled or waits, in the order of the flushes.
  pub act_all-burst :
      (as' : List Action) (s : Pipe)
      → FitsIn s (length (inside s) + length (flushed_by_all fp masks cfg accepts as' s))
      → contents (act_all fp masks cfg accepts as' s)
        ≡ contents s ++ flushed_by_all fp masks cfg accepts as' s
  unfolding Grows
  act_all-burst [] s f = sym (append-nil (contents s))
  act_all-burst (a ∷ as') s f =
      let next = act fp masks cfg accepts a s in
      let rest = flushed_by_all fp masks cfg accepts as' next in
      let l = length-append (flushed_by a s) rest in
      let e = contents-act a s (omega (arith, f.0, l), omega (arith, f.1, l)) in
      let (c, g) = act-Grows a s in
      let n = (ap length e) ∙ length-append (contents s) (flushed_by a s) in
      let p = length-append s.handled (inside s) in
      let q = length-append next.handled (inside next) in
      let h =
        act_all-burst as' next
          (omega (arith, f.0, l, g, n, p, q), omega (arith, f.1, l, g, n, p, q, c)) in
      h ∙ ap (λ es. es ++ rest) e ∙ append_assoc (contents s) (flushed_by a s) rest
