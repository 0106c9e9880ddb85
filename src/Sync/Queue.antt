-- ===== src/Sync/Queue.antt =====
-- internal/sync/queue.go: a bounded queue of filesystem events. The warning that an event is dropped
-- is not modelled.
pub mod Fifo
use googlysync.Prelude.{ℕ, zero, suc, Option, none, some, List, [], ◌∷◌, ℤ, pos, negsuc}
use googlysync.Prelude.Channel.{offer}
use googlysync.Fswatch.Watcher.{Event}

pub record Queue : Type 0 where
  pub capacity : ℕ
  pub waiting : List Event

-- `if capacity <= 0 { capacity = 1024 }`
abbrev pub usable_capacity : ℤ → ℕ
usable_capacity (pos zero) = 1024
usable_capacity (pos (suc n)) = suc n
usable_capacity (negsuc n) = 1024

unfoldable pub new_queue : ℤ → Queue
new_queue capacity = record { capacity = usable_capacity capacity; waiting = [] }

unfoldable pub enqueue : Event → Queue → Queue
unfolding offer
enqueue evt q = record q { waiting = offer q.capacity q.waiting evt }

abbrev first_of : Queue → List Event → Option (Event × Queue)
first_of q [] = none
first_of q (e ∷ es) = some (e, record q { waiting = es })

-- A receive from `Channel()`; `none` where it blocks.
unfoldable pub receive : Queue → Option (Event × Queue)
receive q = first_of q q.waiting
