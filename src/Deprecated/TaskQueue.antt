-- ===== src/Deprecated/TaskQueue.antt =====
-- deprecated/queue.h and queue.c: the linked queue of queue.c at the root, without a lock, a limit and
-- copies. It holds pointers to tasks. A new queue has no node in its heap.
use pi_296_cluster.Prelude.{
  ℕ, Bool, Option, none, some, List, pos, ◌==◌, if◌then◌else◌, Outcome, ok, ◌>>=◌,
}
use pi_296_cluster.Queue.{Ptr, Heap, Queue, create, enqueue, dequeue, destroy}

abbrev pub TaskQueue : Type 0
TaskQueue = Queue Ptr

abbrev pub queue_create : TaskQueue
queue_create = create (pos 0) (λ element. element) (λ address. none)

-- `node` is what malloc returns.
abbrev pub queue_push : Ptr → Ptr → TaskQueue → Outcome TaskQueue
queue_push node element this = enqueue node element this

abbrev pub queue_empty : TaskQueue → Bool
queue_empty this = this.size == 0

abbrev pub queue_size : TaskQueue → ℕ
queue_size this = this.size

-- `none` is NULL.
abbrev pub queue_pull : TaskQueue → Outcome (Option Ptr × TaskQueue)
queue_pull this =
    let pulled : Outcome (Option Ptr × TaskQueue) = (do
      (rt_data, this) ← dequeue this
      ok (some rt_data, this)) in
    if this.size == 0 then ok (none, this) else pulled

-- The tasks that free_task is given, and the heap that is left.
abbrev pub queue_destroy : TaskQueue → Outcome (List Ptr × Heap Ptr)
queue_destroy this = destroy this
