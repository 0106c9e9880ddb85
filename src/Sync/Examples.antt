-- ===== src/Sync/Examples.antt =====
-- The queue and the engine on small inputs.
use googlysync.Prelude.{◌≤◌, ◌≡◌, refl, ◌++◌, List, [], ◌∷◌, length, lit, pos, negsuc, arith}
use googlysync.Status.{Store, new_store, update, brief, error}
use googlysync.Fswatch.Ops.{write, remove}
use googlysync.Fswatch.Watcher.{Event}
use googlysync.Sync.Queue.{Queue, new_queue, enqueue, receive}
use googlysync.Sync.Queue.Fifo.{Use, enqueues, receives, use_all, accepted, use_all-fifo}
use googlysync.Sync.Engine
use googlysync.Sync.Engine.{IsQuiet, run-IsQuiet}

abbrev event : Engine.Input
event = Engine.Input.event (record { path = lit "a"; op = write; when = 1 }) 5 6

abbrev first : Event
first = record { path = lit "a"; op = write; when = 1 }

abbrev second : Event
second = record { path = lit "b"; op = remove; when = 2 }

-- The second event finds a queue of one full; after a receive it is taken.
abbrev uses : List Use
uses = enqueues first ∷ enqueues second ∷ receives ∷ enqueues second ∷ []

abbrev queue : Queue
queue = record { capacity = 1; waiting = [] }

fifo_test : use_all queue uses ≡ (record { capacity = 1; waiting = second ∷ [] }, first ∷ [])
unfolding enqueue receive
fifo_test = refl

capacity_test : ((new_queue (pos 0)).capacity ≡ 1024) × ((new_queue (negsuc 4)).capacity ≡ 1024)
unfolding new_queue
capacity_test = (refl, refl)

use_all-fifo_example :
    let (q', got) = use_all queue uses in
    (length q'.waiting ≤ queue.capacity)
    × (q'.capacity ≡ queue.capacity)
    × (got ++ q'.waiting ≡ queue.waiting ++ accepted queue.capacity (length queue.waiting) uses)
use_all-fifo_example = use_all-fifo uses queue (omega arith)

-- a store that reports an error
abbrev failed : Store
failed = unfold update brief new_store in update (brief error (lit "fswatch error")) 3 (new_store 1)
