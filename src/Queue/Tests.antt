-- ===== src/Queue/Tests.antt =====
-- Runs of the queue, and its theorems at concrete queues.
use pi_296_cluster.Prelude.{
  pos, negsuc, ℕ, ◌≡◌, ◌≢◌, refl, true, false, none, some, [], ◌∷◌, arith, ok, ◌>>=◌, get_elem?,
}
use pi_296_cluster.Queue.{Ptr, Heap, Queue, queue_node, write, create, enqueue, dequeue, destroy}
use pi_296_cluster.Queue.Chain.{Cells, IsQueue, payloads, has}
use pi_296_cluster.Queue.Fifo.{enqueue-snoc, dequeue-uncons}
use pi_296_cluster.Queue.Destroy.{destroy-payloads}
use pi_296_cluster.Queue.Monitor.{push, pull, at_lock, asleep, finished, State, turn}
use pi_296_cluster.Queue.Monitor.Acting.{Holds}
use pi_296_cluster.Queue.Monitor.Turns.{Effect, turn-Holds, not_both_asleep}

-- Two nodes, at addresses 5 and 9, of at most two.
abbrev heap : Heap ℕ
heap a = elim (write (write (λ _. none) 5 (some (queue_node 70 9))) 9 (some (queue_node 80 0)) a) [
  | none ↦ none
  | some n ↦ some n
]

abbrev two : Queue ℕ
two = record {
  copy_constructor = λ x. x;
  head = 5;
  tail = 9;
  size = 2;
  max_size = pos 2;
  heap = heap;
}

abbrev cells : Cells ℕ
cells = (5, 70) ∷ (9, 80) ∷ []

two-IsQueue : IsQueue two cells
unfolding write
two-IsQueue = record {
  at_head = refl;
  at_tail = refl;
  count = refl;
  linked = (omega arith, refl, refl, (omega arith, refl, refl, tt));
}

fifo_order :
    (do
      q ← enqueue {A = ℕ} 5 70 (create (negsuc 0) (λ x. x) (λ _. none))
      q ← enqueue 9 80 q
      (a, q) ← dequeue q
      (b, q) ← dequeue q
      ok (a ∷ b ∷ q.size ∷ []))
    ≡ ok (70 ∷ 80 ∷ 0 ∷ [])
unfolding enqueue dequeue create
fifo_order = refl

enqueue-snoc_example :
    (q : Queue ℕ) × (enqueue 3 90 two ≡ ok q)
    × IsQueue q ((5, 70) ∷ (9, 80) ∷ (3, 90) ∷ [])
    × (q.copy_constructor ≡ two.copy_constructor)
    × (q.max_size ≡ two.max_size)
unfolding write
enqueue-snoc_example = enqueue-snoc two cells 3 90 two-IsQueue (omega arith) refl

dequeue-uncons_example :
    (q : Queue ℕ) × (dequeue two ≡ ok (70, q))
    × IsQueue q ((9, 80) ∷ [])
    × (q.heap ≡ write two.heap 5 none)
    × (q.copy_constructor ≡ two.copy_constructor)
    × (q.max_size ≡ two.max_size)
dequeue-uncons_example = dequeue-uncons two 5 70 ((9, 80) ∷ []) two-IsQueue

destroy-payloads_example :
    (g : Heap ℕ) × (destroy two ≡ ok (70 ∷ 80 ∷ [], g))
    × ((a : Ptr) → has a cells ≡ true → g a ≡ none)
    × ((a : Ptr) → has a cells ≡ false → g a ≡ two.heap a)
destroy-payloads_example = destroy-payloads two cells two-IsQueue

-- One thread waits to push, and another comes to pull.
abbrev contended : State ℕ
contended = record { queue = two; threads = asleep (push 90) ∷ at_lock pull ∷ [] }

contended-Holds : Holds contended cells
contended-Holds = record { queue = two-IsQueue; limit = λ _. omega arith; settled = (refl, tt) }

pull_wakes_push :
    (do t ← turn 3 1 contended; ok t.threads) ≡ ok (at_lock (push 90) ∷ finished (some 70) ∷ [])
unfolding turn write dequeue
pull_wakes_push = refl

turn-Holds_example :
    (t : State ℕ) × (after : Cells ℕ) × (turn 3 1 contended ≡ ok t)
    × Holds t after
    × Effect
        (λ x. x)
        (pos 2)
        1
        (at_lock pull)
        (70 ∷ 80 ∷ [])
        (payloads after)
        (asleep (push 90) ∷ at_lock pull ∷ [])
        t.threads
unfolding write
turn-Holds_example =
    turn-Holds 3 1 contended cells (at_lock pull) contended-Holds refl (omega arith) refl

-- One thread waits to pull from an empty queue.
abbrev starved : State ℕ
starved = record {
  queue = record {
    copy_constructor = λ x. x;
    head = 0;
    tail = 0;
    size = 0;
    max_size = pos 2;
    heap = λ _. none;
  };
  threads = asleep pull ∷ at_lock (push 90) ∷ [];
}

starved-Holds : Holds starved []
starved-Holds = record {
  queue = record { at_head = refl; at_tail = refl; count = refl; linked = tt };
  limit = λ _. omega arith;
  settled = (refl, tt);
}

not_both_asleep_example : get_elem? starved.threads 1 ≢ some (asleep (push 90))
not_both_asleep_example = not_both_asleep starved [] 0 1 90 starved-Holds refl
