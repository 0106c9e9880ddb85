-- ===== src/Sync/Queue/Fifo.antt =====
-- The queue of internal/sync/queue.go against the events offered to it.
use googlysync.Prelude.{
  ℕ, suc, ◌-◌, ◌≤◌, true, false, ◌≡◌, refl, sym, ap, ◌∙◌, subst, Option, none, some, List, [], ◌∷◌,
  ◌++◌, append-nil, append_assoc, arith, if◌then◌else◌, ltb, ltb→lt, length, length-append,
  Bool-cases, inl, inr,
}
use googlysync.Fswatch.Watcher.{Event}
use googlysync.Sync.Queue.{Queue, enqueue, receive}

-- One use of the queue: the daemon's forwarder enqueues, the engine receives if it can.
pub data Use : Type 0 where
  enqueues : Event → Use
  receives : Use

abbrev received : Queue → Option (Event × Queue) → Queue × List Event
received q none = (q, [])
received q (some (e, q')) = (q', e ∷ [])

-- The queue after some uses, and what was received, oldest first.
abbrev pub use_all : Queue → List Use → Queue × List Event
use_all q [] = (q, [])
use_all q (enqueues e ∷ us) = use_all (enqueue e q) us
use_all q (receives ∷ us) =
    let (q', got) = received q (receive q) in let (q'', more) = use_all q' us in (q'', got ++ more)

-- What a counter of free places takes of the events offered.
abbrev pub accepted : ℕ → ℕ → List Use → List Event
accepted limit n [] = []
accepted limit n (enqueues e ∷ us) =
    let taken = e ∷ accepted limit (suc n) us in
    let dropped = accepted limit n us in if ltb n limit then taken else dropped
accepted limit n (receives ∷ us) = accepted limit (n - 1) us

-- A queue within its capacity, and what was received followed by what waits.
abbrev Outcome : ℕ → List Event → Queue × List Event → Type 0
Outcome limit all (q, got) =
    (length q.waiting ≤ limit) × (q.capacity ≡ limit) × (got ++ q.waiting ≡ all)

enqueue_room :
    (e : Event) (limit : ℕ) (xs : List Event)
    → ltb (length xs) limit ≡ true
    → enqueue e (record { capacity = limit; waiting = xs })
      ≡ record { capacity = limit; waiting = xs ++ e ∷ [] }
unfolding enqueue
enqueue_room e limit xs h = rw h

enqueue_full :
    (e : Event) (limit : ℕ) (xs : List Event)
    → ltb (length xs) limit ≡ false
    → enqueue e (record { capacity = limit; waiting = xs })
      ≡ record { capacity = limit; waiting = xs }
unfolding enqueue
enqueue_full e limit xs h = rw h

length-snoc : (xs : List Event) (e : Event) → length (xs ++ e ∷ []) ≡ suc (length xs)
length-snoc xs e = omega (arith, length-append xs (e ∷ []))

accepted_room :
    (e : Event) (limit n : ℕ) (us : List Use)
    → ltb n limit ≡ true
    → accepted limit n (enqueues e ∷ us) ≡ e ∷ accepted limit (suc n) us
accepted_room e limit n us h = rw h

accepted_full :
    (e : Event) (limit n : ℕ) (us : List Use)
    → ltb n limit ≡ false
    → accepted limit n (enqueues e ∷ us) ≡ accepted limit n us
accepted_full e limit n us h = rw h

fifo :
    (us : List Use) (limit : ℕ) (xs : List Event)
    → length xs ≤ limit
    → Outcome limit
        (xs ++ accepted limit (length xs) us)
        (use_all (record { capacity = limit; waiting = xs }) us)
unfolding receive
fifo [] limit xs h = (h, refl, sym (append-nil xs))
fifo (enqueues e ∷ us) limit xs h = elim (Bool-cases (ltb (length xs) limit)) [
  | inl t ↦
      let (bound, same, order) =
        fifo us limit (xs ++ e ∷ [])
          (omega (arith, ltb→lt (length xs) limit t, length-snoc xs e)) in
      subst (λ q. Outcome limit (xs ++ accepted limit (length xs) (enqueues e ∷ us)) (use_all q us))
        (sym (enqueue_room e limit xs t))
        (
          bound,
          same,
          order
              ∙ ap (λ n. (xs ++ e ∷ []) ++ accepted limit n us) (length-snoc xs e)
              ∙ append_assoc xs (e ∷ []) (accepted limit (suc (length xs)) us)
              ∙ ap (◌++◌ xs) (sym (accepted_room e limit (length xs) us t)),
        )
  | inr t ↦
      subst (λ q. Outcome limit (xs ++ accepted limit (length xs) (enqueues e ∷ us)) (use_all q us))
        (sym (enqueue_full e limit xs t))
        (rw (accepted_full e limit (length xs) us t) (fifo us limit xs h))
]
fifo (receives ∷ us) limit [] h = fifo us limit [] h
fifo (receives ∷ us) limit (x ∷ xs) h =
    let (bound, same, order) = fifo us limit xs (omega arith) in
    (bound, same, ap (◌∷◌ x) (order ∙ ap (λ n. xs ++ accepted limit n us) (omega arith)))

-- A queue never holds more than its capacity, hands out the events in the order in which it took
-- them, and loses none of those; it takes an event exactly when fewer than its capacity wait.
pub use_all-fifo :
    (us : List Use) (q : Queue)
    → length q.waiting ≤ q.capacity
    → let (q', got) = use_all q us in
      (length q'.waiting ≤ q.capacity)
      × (q'.capacity ≡ q.capacity)
      × (got ++ q'.waiting ≡ q.waiting ++ accepted q.capacity (length q.waiting) us)
use_all-fifo us q h = fifo us q.capacity q.waiting h
