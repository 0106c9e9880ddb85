-- ===== src/Daemon/Pipeline/Drain.antt =====
-- When the watcher is silent, what is on its way is handled after finitely many rounds.
use googlysync.Prelude.{
  ℕ, zero, suc, ◌+◌, ◌≤◌, ◌<◌, Bool, true, ◌≡◌, refl, sym, subst, Option, none, some, List, [], ◌∷◌,
  ◌++◌, append-nil, append_assoc, Str, Time, length, length-append, arith,
}
use googlysync.Config.{Config}
use googlysync.Fswatch.Ops.{Masks}
use googlysync.Fswatch.Paths.{Filepath}
use googlysync.Fswatch.Watcher.{Event, Watcher}
use googlysync.Sync.Engine
use googlysync.Sync.Queue.{enqueue, receive}
use googlysync.Daemon.Pipeline.{
  Pipe, Action, forwarder_receives, forwarder_enqueues, engine_receives, or_store, act, act_all,
}
use googlysync.Daemon.Pipeline.Order.{inside, contents, held_list}
use googlysync.Daemon.Pipeline.Burst.{offer_room, length-inside}

-- a round: the engine, then the forwarder twice
abbrev pub round : (ℕ → Time) → ℕ → List Action
round clock i =
    engine_receives (clock i) (clock (i + 1)) ∷ forwarder_receives ∷ forwarder_enqueues ∷ []

abbrev pub rounds : (ℕ → Time) → ℕ → ℕ → List Action
rounds clock i zero = []
rounds clock i (suc n) = round clock i ++ rounds clock (i + 2) n

-- a pipe whose engine runs, by what it holds
abbrev at : Watcher → Bool → ℕ → List Event → List Event → Option Event → List Event → Pipe
at w watching capacity handled waiting held out = record {
  watcher = record w { out = out };
  watching = watching;
  syncing = true;
  held = held;
  queue = record { capacity = capacity; waiting = waiting };
  handled = handled;
}

-- the rounds that a pipe needs
abbrev cost : List Event → Option Event → List Event → ℕ
cost [] none [] = 0
cost [] none (o ∷ os) = suc (suc (length os))
cost [] (some e) os = suc (suc (length os))
cost (w ∷ ws) h os = suc (length ws) + (length (held_list h) + length os)

-- Everything is handled, in the order in which it waited.
abbrev pub IsDrained : Pipe → List Event → Type 0
IsDrained s all = (s.handled ≡ all) × (inside s ≡ [])

cost-snoc :
    (xs : List Event) (o : Event) (os : List Event)
    → cost (xs ++ o ∷ []) none os ≡ suc (length xs) + length os
cost-snoc [] o os = omega arith
cost-snoc (x ∷ xs) o os = omega (arith, length-append xs (o ∷ []))

cost-le-length : (xs : List Event) → cost xs none [] ≤ length xs
cost-le-length [] = omega arith
cost-le-length (x ∷ xs) = omega arith

-- the watcher with the store that the engine has written
abbrev served : Time → Time → Event → Watcher → Watcher
served before after e w = record w {
  status = or_store w.status (Engine.run (Engine.Input.event e before after ∷ []) (some w.status));
}

passed_on : (hs : List Event) (x : Event) (ys : List Event) → (hs ++ x ∷ []) ++ ys ≡ hs ++ (x ∷ ys)
passed_on hs x ys = append_assoc hs (x ∷ []) ys

module _ (fp : Filepath) (masks : Masks) (cfg : Config) (accepts : Str → Bool)
    (clock : ℕ → Time) where
  abbrev run_rounds : ℕ → ℕ → Pipe → Pipe
  run_rounds i n s = act_all fp masks cfg accepts (rounds clock i n) s

  drained :
      (n i : ℕ) (w : Watcher) (b : Bool) (c : ℕ) (hs ws : List Event) (h : Option Event)
      (os : List Event)
      → 0 < c
      → length ws ≤ c
      → cost ws h os ≤ n
      → IsDrained (run_rounds i n (at w b c hs ws h os)) (hs ++ (ws ++ (held_list h ++ os)))
  unfolding act receive enqueue
  drained zero i w b c hs [] none [] p f k = (sym (append-nil hs), refl)
  drained zero i w b c hs [] none (o ∷ os) p f k = absurd (omega arith)
  drained zero i w b c hs [] (some e) os p f k = absurd (omega arith)
  drained zero i w b c hs (x ∷ xs) h os p f k = absurd (omega arith)
  drained (suc n) i w b c hs [] none [] p f k =
      drained n (i + 2) w b c hs [] none [] p f (omega arith)
  drained (suc n) i w b c hs [] none (o ∷ os) p f k =
      rw (offer_room c [] o p)
        (drained n (i + 2) w b c hs (o ∷ []) none os p (omega arith) (omega arith))
  drained (suc n) i w b c hs [] (some e) os p f k =
      rw (offer_room c [] e p)
        (drained n (i + 2) w b c hs (e ∷ []) none os p (omega arith) (omega arith))
  drained (suc n) i w b c hs (x ∷ xs) none [] p f k = rw (← passed_on hs x (xs ++ [])) (
      drained n (i + 2) (served (clock i) (clock (i + 1)) x w) b c (hs ++ x ∷ []) xs none [] p
        (omega arith) (omega (arith, cost-le-length xs)))
  drained (suc n) i w b c hs (x ∷ xs) none (o ∷ os) p f k =
      rw
        (
          offer_room c xs o (omega arith),
          ← passed_on hs x (xs ++ o ∷ os),
          ← append_assoc xs (o ∷ []) os,
        )
        (drained n (i + 2) (served (clock i) (clock (i + 1)) x w) b c (hs ++ x ∷ []) (xs ++ o ∷ [])
          none os p (omega (arith, length-append xs (o ∷ []))) (omega (arith, cost-snoc xs o os)))
  drained (suc n) i w b c hs (x ∷ xs) (some e) os p f k =
      rw
        (
          offer_room c xs e (omega arith),
          ← passed_on hs x (xs ++ e ∷ os),
          ← append_assoc xs (e ∷ []) os,
        )
        (drained n (i + 2) (served (clock i) (clock (i + 1)) x w) b c (hs ++ x ∷ []) (xs ++ e ∷ [])
          none os p (omega (arith, length-append xs (e ∷ []))) (omega (arith, cost-snoc xs e os)))

  cost-le-inside :
      (ws : List Event) (h : Option Event) (os : List Event)
      → cost ws h os ≤ suc (length ws + (length (held_list h) + length os))
  cost-le-inside [] none [] = omega arith
  cost-le-inside [] none (o ∷ os) = omega arith
  cost-le-inside [] (some e) os = omega arith
  cost-le-inside (w ∷ ws) h os = omega arith

  -- While the watcher is silent and the engine runs, and the queue has a place and holds no more
  -- than it can, any number of rounds of the engine's and the forwarder's steps that is greater than
  -- the number of events on their way leaves none on its way, and has handled all of them in the
  -- order in which they waited.
  pub drain :
      (i n : ℕ) (s : Pipe)
      → s.syncing ≡ true
      → 0 < s.queue.capacity
      → length s.queue.waiting ≤ s.queue.capacity
      → length (inside s) < n
      → IsDrained (act_all fp masks cfg accepts (rounds clock i n) s) (contents s)
  drain i n s r p f k =
      subst (λ b. IsDrained (run_rounds i n (record s { syncing = b })) (contents s)) (sym r)
        (drained n i s.watcher s.watching s.queue.capacity s.handled s.queue.waiting s.held
          s.watcher.out p f
          (omega (arith, length-inside s, cost-le-inside s.queue.waiting s.held s.watcher.out)))
