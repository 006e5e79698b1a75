-- ===== src/Queue/Monitor.antt =====
-- The lock and the condition variable of queue.c: threads that call `queue_push` and `queue_pull`.
-- A turn is what a thread does between taking the lock and giving it up, by unlocking or by
-- pthread_cond_wait. A thread that waits may also wake with no broadcast.
pub mod Acting
pub mod Leaving
pub mod Settled
pub mod Turns
use pi_296_cluster.Prelude.{
  ℕ, Bool, true, false, Option, none, some, List, [], ◌∷◌, if◌then◌else◌, get_elem?, set, Outcome,
  ok, fault, ◌>>=◌,
}
use pi_296_cluster.Queue.{Ptr, Queue, is_full, is_empty, enqueue, dequeue, push_wakes, pull_wakes}

pub data Call (A : Type 0) : Type 0 where
  push : A → Call A
  pull : Call A

pub data Phase (A : Type 0) : Type 0 where
  at_lock : Call A → Phase A
  asleep : Call A → Phase A
  finished : Option A → Phase A

pub record State (A : Type 0) : Type 0 where
  pub queue : Queue A
  pub threads : List (Phase A)

module _ {A : Type 0} where
  -- The test of the `while` around the wait.
  abbrev pub blocked : Queue A → Call A → Bool
  blocked q (push x) = is_full q
  blocked q pull = is_empty q

  abbrev pub wake : Phase A → Phase A
  wake (asleep c) = at_lock c
  wake (at_lock c) = at_lock c
  wake (finished r) = finished r

  -- pthread_cond_broadcast
  abbrev pub broadcast : List (Phase A) → List (Phase A)
  broadcast [] = []
  broadcast (p ∷ ps) = wake p ∷ broadcast ps

  -- The end of a call: the result is in, and the others are woken if the test says so.
  abbrev pub leave : ℕ → Option A → Bool → Queue A → List (Phase A) → State A
  leave i result wakes q ps = record {
    queue = q;
    threads = if wakes then broadcast (set ps i (finished result)) else set ps i (finished result);
  }

  -- A call that need not wait.
  pub act : Ptr → ℕ → Call A → State A → Outcome (State A)
  act fresh i (push x) s = do
    q ← enqueue fresh x s.queue
    ok (leave i none (push_wakes q) q s.threads)
  act fresh i pull s = do (x, q) ← dequeue s.queue; ok (leave i (some x) (pull_wakes q) q s.threads)

  pub enter : Ptr → ℕ → Phase A → State A → Outcome (State A)
  unfolding act
  enter fresh i (at_lock c) s =
      if blocked s.queue c
      then ok (record s { threads = set s.threads i (asleep c) })
      else act fresh i c s
  enter fresh i (asleep c) s = ok (record s { threads = set s.threads i (at_lock c) })
  enter fresh i (finished r) s = ok s

  -- A turn of thread `i`, with the address that malloc would return.
  unfoldable pub turn : Ptr → ℕ → State A → Outcome (State A)
  unfolding enter
  turn fresh i s = elim (get_elem? s.threads i) [ none ↦ ok s | some p ↦ enter fresh i p s ]
